-- ===== src/Policy/Compiler/Order.antt =====
-- sortRules: the order of the compiled rules is a total order, field after field.
use sase.Prelude.{◌≡◌, Bool, Bool-cases, false, inl, inr}
use sase.Prelude.Bytes.{blt}
use sase.Prelude.Sort.{IsWeakOrder}
use sase.Prelude.Lex.{
  lt_int-IsTotalOrder, blt-IsTotalOrder, by-IsWeakOrder, lex, lex-tie, lex-IsWeakOrder,
}
use sase.Policy.Xdsv1.{L7Rule}
use sase.Policy.Compiler.{rule_less}

abbrev by_effect : L7Rule → L7Rule → Bool
by_effect x y = blt x.effect y.effect

abbrev by_action : L7Rule → L7Rule → Bool
by_action = lex blt-IsTotalOrder (λ r. r.action) by_effect

abbrev by_value : L7Rule → L7Rule → Bool
by_value = lex blt-IsTotalOrder (λ r. r.subject_value) by_action

abbrev by_kind : L7Rule → L7Rule → Bool
by_kind = lex blt-IsTotalOrder (λ r. r.subject_kind) by_value

abbrev by_resource : L7Rule → L7Rule → Bool
by_resource = lex blt-IsTotalOrder (λ r. r.resource) by_kind

pub rule_less-IsWeakOrder : IsWeakOrder rule_less
unfolding rule_less
rule_less-IsWeakOrder =
    lex-IsWeakOrder lt_int-IsTotalOrder (λ r. r.priority) by_resource
      (lex-IsWeakOrder blt-IsTotalOrder (λ r. r.resource) by_kind
        (lex-IsWeakOrder blt-IsTotalOrder (λ r. r.subject_kind) by_value
          (lex-IsWeakOrder blt-IsTotalOrder (λ r. r.subject_value) by_action
            (lex-IsWeakOrder blt-IsTotalOrder (λ r. r.action) by_effect
              (by-IsWeakOrder blt-IsTotalOrder (λ r. r.effect))))))

same_rule :
    (x y : L7Rule)
    → x.priority ≡ y.priority
    → x.resource ≡ y.resource
    → x.subject_kind ≡ y.subject_kind
    → x.subject_value ≡ y.subject_value
    → x.action ≡ y.action
    → x.effect ≡ y.effect
    → x ≡ y
same_rule x y a b c d e f = cc

-- Rules that the order does not tell apart are equal.
pub rule_less_tie : (x y : L7Rule) → rule_less x y ≡ false → rule_less y x ≡ false → x ≡ y
unfolding rule_less
rule_less_tie x y h k =
    let (a, h1, k1) = lex-tie lt_int-IsTotalOrder (λ r. r.priority) by_resource x y h k in
    let (b, h2, k2) = lex-tie blt-IsTotalOrder (λ r. r.resource) by_kind x y h1 k1 in
    let (c, h3, k3) = lex-tie blt-IsTotalOrder (λ r. r.subject_kind) by_value x y h2 k2 in
    let (d, h4, k4) = lex-tie blt-IsTotalOrder (λ r. r.subject_value) by_action x y h3 k3 in
    let (e, h5, k5) = lex-tie blt-IsTotalOrder (λ r. r.action) by_effect x y h4 k4 in
    same_rule x y a b c d e (blt-IsTotalOrder.tie x.effect y.effect h5 k5)

pub rule_less_irrefl : (x : L7Rule) → rule_less x x ≡ false
rule_less_irrefl x = elim (Bool-cases (rule_less x x)) [
  | inl e ↦ rule_less-IsWeakOrder.asym x x e
  | inr e ↦ e
]
