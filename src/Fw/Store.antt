-- ===== src/Fw/Store.antt =====
-- FWStore of internal/pop/fw_store.go: each tenant's compiled rules.
use sase.Prelude.{
  ◌≡◌, Bool, true, false, Option, none, some, List, [], ◌∷◌, ◌++◌, arith, All, All-imp, Any, inl,
  inr, refl, if◌then◌else◌,
}
use sase.Prelude.Bytes.{Bytes, beq, beq_refl}
use sase.Prelude.Dict.{Dict, get, put, get-put, bytes_key}
use sase.Prelude.Int.{lt_int, lt_int_asym, lt_int_le_trans, lt_int_irrefl}
use sase.Prelude.Sort.{
  stable_sort, IsSorted, IsWeakOrder, stable_sort-IsSorted, All_of_stable_sort, Any_of_stable_sort,
}
use sase.Fw.FirstMatch.{matches, Misses, allow→FirstMatch}
use sase.Net.{IpNet}
use sase.Fw
use sase.Fw.{CompiledRuleSet, Rule, Packet}

-- The field `m`; the engine is the rule engine of internal/fw, the only one there is.
abbrev pub FwStore : Type 0
FwStore = Dict Bytes CompiledRuleSet

unfoldable pub new_fw_store : FwStore
new_fw_store = []

unfoldable pub by_priority : Rule → Rule → Bool
by_priority a b = lt_int a.priority b.priority

module _ (parse_cidr : Bytes → Option IpNet) where
  unfoldable pub set_rules : FwStore → Bytes → List Rule → FwStore
  set_rules s tenant rules = put tenant (Fw.compile parse_cidr (stable_sort by_priority rules)) s

unfoldable pub allow : FwStore → Bytes → Packet → Bool
allow s tenant p = elim (get tenant s) [
  | none ↦ false
  | some cs ↦ (Fw.evaluate_compiled cs p).allow
]

by_priority_irrefl : (r : Rule) → by_priority r r ≡ false
unfolding by_priority
by_priority_irrefl r = lt_int_irrefl r.priority

by_priority-IsWeakOrder : IsWeakOrder by_priority
unfolding by_priority
by_priority-IsWeakOrder = record {
  asym = λ x y. lt_int_asym x.priority y.priority;
  le_trans = λ x y z. lt_int_le_trans x.priority y.priority z.priority;
}

module _ (parse_cidr : Bytes → Option IpNet) where
  -- Replacing a tenant's rules decides that tenant's packets and leaves the other tenants alone.
  pub allow-set_rules :
      (s : FwStore) (tenant other : Bytes) (rules : List Rule) (p : Packet)
      → allow (set_rules parse_cidr s tenant rules) other p ≡ (
          if beq tenant other
          then (Fw.evaluate parse_cidr (stable_sort by_priority rules) p).allow
          else allow s other p)
  unfolding allow set_rules Fw.evaluate
  allow-set_rules s tenant other rules p =
      ground (arith, get-put tenant other (Fw.compile parse_cidr (stable_sort by_priority rules)) s)

  Any_middle : (r : Rule) (before after : List Rule) → Any (λ x. x ≡ r) (before ++ r ∷ after)
  Any_middle r [] after = inl refl
  Any_middle r (b ∷ before) after = inr (Any_middle r before after)

  -- No matching rule stands before it: its priority is the least of all that match.
  abbrev pub IsLeast : Packet → Rule → Rule → Type 0
  IsLeast p r q = matches parse_cidr q p ≡ true → by_priority q r ≡ false

  IsLeast-of_sorted :
      (p : Packet) (r : Rule) (before after : List Rule)
      → All (Misses parse_cidr p) before
      → IsSorted by_priority (before ++ r ∷ after)
      → All (IsLeast p r) (before ++ r ∷ after)
  IsLeast-of_sorted p r [] after m h = (
    λ _. by_priority_irrefl r,
    All-imp (λ q. by_priority q r ≡ false) (IsLeast p r) (λ q e _. e) after h.0,
  )
  IsLeast-of_sorted p r (b ∷ before) after m h =
      (λ e. cc (m.0), IsLeast-of_sorted p r before after m.1 h.1)

  -- A stored rule set lets a packet pass only by one of the rules handed over: an allowing rule that
  -- matches and whose priority is the least among all of them that match, whatever their order was.
  pub allow→least :
      (s : FwStore) (tenant : Bytes) (rules : List Rule) (p : Packet)
      → allow (set_rules parse_cidr s tenant rules) tenant p ≡ true
      → (r : Rule) × Any (λ x. x ≡ r) rules
        × (matches parse_cidr r p ≡ true)
        × (r.action ≡ Fw.action_allow)
        × All (IsLeast p r) rules
  allow→least s tenant rules p h =
      let e = rw (allow-set_rules s tenant tenant rules p, beq_refl tenant) at h in
      let (r, f, a) = allow→FirstMatch parse_cidr (stable_sort by_priority rules) p e in
      (
        r,
        Any_of_stable_sort by_priority (λ x. x ≡ r) rules
            (rw f.place (Any_middle r f.before f.after)),
        f.hit,
        a,
        All_of_stable_sort by_priority (IsLeast p r) rules (
            rw f.place (
              IsLeast-of_sorted p r f.before f.after f.missed
                (rw f.place at (stable_sort-IsSorted by_priority by_priority-IsWeakOrder rules)))),
      )
