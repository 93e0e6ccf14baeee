-- ===== src/Prelude/Lex.antt =====
-- Comparison of records by one field after another, the way the sorts of the code compare.
use mathlib.Core.Path.{◌≡◌, ap, sym, ◌∙◌}
use mathlib.Core.Logic.{◌↔◌, inl, inr}
use mathlib.Core.Bool.{Bool, true, false, not}
use native.Mathlib.Omega.{arith}
use sase.Prelude.Tests.{if◌then◌else◌, Bool-cases}
use sase.Prelude.Bytes.{beq, beq_iff, blt, blt_irrefl, blt_trans, blt_trichotomy}
use sase.Prelude.Int.{
  eq_int, eq_int→eq, eq_int_refl, lt_int, lt_int_irrefl, lt_int_trans, lt_int_tie,
}
use sase.Prelude.Sort.{IsWeakOrder}

-- A strict total order with a test for equality.
pub record IsTotalOrder {K : Type 0} (eq lt : K → K → Bool) : Type 0 where
  pub eq_iff : (a b : K) → (eq a b ≡ true) ↔ (a ≡ b)
  pub irrefl : (a : K) → lt a a ≡ false
  pub trans : (a b c : K) → lt a b ≡ true → lt b c ≡ true → lt a c ≡ true
  pub tie : (a b : K) → lt a b ≡ false → lt b a ≡ false → a ≡ b

pub lt_int-IsTotalOrder : IsTotalOrder eq_int lt_int
lt_int-IsTotalOrder = record {
  eq_iff = λ a b. (eq_int→eq a b, λ e. ap (eq_int a) (sym e) ∙ eq_int_refl a);
  irrefl = lt_int_irrefl;
  trans = lt_int_trans;
  tie = lt_int_tie;
}

pub blt-IsTotalOrder : IsTotalOrder beq blt
blt-IsTotalOrder = record {
  eq_iff = beq_iff;
  irrefl = blt_irrefl;
  trans = blt_trans;
  tie = blt_trichotomy;
}

module _ {K : Type 0} {eq lt : K → K → Bool} (o : IsTotalOrder eq lt) where
  asym : (a b : K) → lt a b ≡ true → lt b a ≡ false
  asym a b h = elim (Bool-cases (lt b a)) [
    | inl e ↦ let no : true ≡ false = sym (o.trans a b a h e) ∙ o.irrefl a in ground arith
    | inr e ↦ e
  ]

  le_trans : (a b c : K) → lt b a ≡ false → lt c b ≡ false → lt c a ≡ false
  le_trans a b c h k = elim (Bool-cases (lt c a)) [
    | inl e ↦ elim (Bool-cases (lt a b)) [
      | inl g ↦ e ∙ sym (o.trans c a b e g) ∙ k
      | inr g ↦ let same = o.tie a b g h in ap (lt c) same ∙ k
    ]
    | inr e ↦ e
  ]

  module _ {A : Type 0} (f : A → K) where
    pub by-IsWeakOrder : IsWeakOrder (λ x y. lt (f x) (f y))
    by-IsWeakOrder = record {
      asym = λ x y. asym (f x) (f y);
      le_trans = λ x y z. le_trans (f x) (f y) (f z);
    }

    module _ (rest : A → A → Bool) where
      abbrev pub lex : A → A → Bool
      lex x y = if not (eq (f x) (f y)) then lt (f x) (f y) else rest x y

      pub lex-tie :
          (x y : A)
          → lex x y ≡ false
          → lex y x ≡ false
          → (f x ≡ f y) × (rest x y ≡ false) × (rest y x ≡ false)
      lex-tie x y h k =
          ground (arith, o.eq_iff (f x) (f y), o.eq_iff (f y) (f x), o.tie (f x) (f y))

      pub lex-IsWeakOrder : IsWeakOrder rest → IsWeakOrder lex
      lex-IsWeakOrder w = record {
        asym = λ x y h.
            ground
              (arith, o.eq_iff (f x) (f y), o.eq_iff (f y) (f x), asym (f x) (f y), w.asym x y);
        le_trans = λ x y z h k. ground (
          arith,
          o.eq_iff (f x) (f y),
          o.eq_iff (f y) (f x),
          o.eq_iff (f y) (f z),
          o.eq_iff (f z) (f y),
          o.eq_iff (f x) (f z),
          o.eq_iff (f z) (f x),
          o.tie (f x) (f y),
          o.tie (f y) (f z),
          le_trans (f x) (f y) (f z),
          asym (f x) (f y),
          asym (f y) (f z),
          asym (f x) (f z),
          asym (f z) (f x),
          o.irrefl (f x),
          w.le_trans x y z,
        );
      }
