-- ===== src/Policy/Compiler/Correct.antt =====
-- Compile as a whole: when it yields a bundle, what the bundle holds, and that the order in which
-- the policies are listed does not matter.
use mathlib.Core.List.{Perm, Permᴰ}
use mathlib.Core.Path.{subst}
use sase.Prelude.{
  ◌≡◌, sym, ◌∙◌, ap, inl, inr, Bool, Option, none, some, Option-cases, List, [], ◌∷◌, map, All,
}
use sase.Prelude.Bytes.{Bytes}
use sase.Prelude.Dict.{Dict, get}
use sase.Prelude.Sort.{
  IsSorted, stable_sort-IsSorted, stable_sort-perm, stable_sort_permᴰ, All_permᴰ,
}
use sase.Prelude.Result.{ok, Result-cases, ok-not-err, ok-injective}
use sase.Policy.Xdsv1.{L7Rule, PolicyBundle}
use sase.Policy.Compiler.{
  Policy, hash_error, compile, check_all, find_conflict, rule_of, rule_less, sort_rules, match_key,
  key_of,
}
use sase.Policy.Compiler.Checks.{
  IsValid, check_all-valid, check_all-ok, Consistent, Consistent-permᴰ, find_conflict-none,
  find_conflict-Consistent,
}
use sase.Policy.Compiler.Order.{rule_less-IsWeakOrder, rule_less_tie}

-- The rules that a list of policies stands for, in the order of evaluation.
abbrev pub rules_of : List Policy → List L7Rule
rules_of ps = sort_rules (map rule_of ps)

abbrev pub bundle_of : Bytes → List Policy → Bytes → PolicyBundle
bundle_of tenant ps h = record {
  tenant_id = tenant;
  version = 0;
  content_hash = h;
  l7_rules = rules_of ps;
}

no_effects_seen :
    (ps : List Policy)
    → All (λ p. (prev : Bytes) → get (key_of p) [] ≡ some prev → prev ≡ p.effect) ps
unfolding get
no_effects_seen [] = tt
no_effects_seen (p ∷ ps) = (λ prev e. cc, no_effects_seen ps)

map_permᴰ : {ps qs : List Policy} → Permᴰ ps qs → Permᴰ (map rule_of ps) (map rule_of qs)
map_permᴰ Permᴰ.nil = Permᴰ.nil
map_permᴰ (Permᴰ.cons e p) = Permᴰ.cons (ap rule_of e) (map_permᴰ p)
map_permᴰ (Permᴰ.swap e f) = Permᴰ.swap (ap rule_of e) (ap rule_of f)
map_permᴰ (Permᴰ.trans p q) = Permᴰ.trans (map_permᴰ p) (map_permᴰ q)

pub rules_of-IsSorted : (ps : List Policy) → IsSorted rule_less (rules_of ps)
unfolding sort_rules
rules_of-IsSorted ps = stable_sort-IsSorted rule_less rule_less-IsWeakOrder (map rule_of ps)

module _ (hash : List L7Rule → Option Bytes) (tenant : Bytes)
    (apps : Option (Dict Bytes Bool)) where
  -- Legal policies without a conflict compile to their rules in order, under their hash.
  pub compile-legal :
      (ps : List Policy) (h : Bytes)
      → All (IsValid apps) ps
      → Consistent ps
      → hash (rules_of ps) ≡ some h
      → compile hash tenant ps apps ≡ ok (bundle_of tenant ps h)
  unfolding compile sort_rules
  compile-legal ps h v c e =
      rw (
        compile,
        check_all-valid apps ps v,
        find_conflict-Consistent [] ps (no_effects_seen ps) c,
        e,
      )

  hashed :
      (ps : List Policy) (rules : List L7Rule) (b : PolicyBundle)
      → check_all apps ps ≡ ok rules
      → find_conflict [] ps ≡ none
      → compile hash tenant ps apps ≡ ok b
      → (hash (sort_rules rules) ≡ some b.content_hash)
        × (b ≡ record {
          tenant_id = tenant;
          version = 0;
          content_hash = b.content_hash;
          l7_rules = sort_rules rules;
        })
  unfolding compile
  hashed ps rules b c f e = elim (Option-cases (hash (sort_rules rules))) [
    | inl n ↦ absurd (ok-not-err (compile hash tenant ps apps) hash_error e (rw (compile, c, f, n)))
    | inr (h, g) ↦
        let made : record {
          tenant_id = tenant;
          version = 0;
          content_hash = h;
          l7_rules = sort_rules rules;
        }
            ≡ b =
          ok-injective _ b (compile hash tenant ps apps) (rw (compile, c, f, g)) e in
        (g ∙ ap (λ x. some x.content_hash) made, cc)
  ]

  stages :
      (ps : List Policy) (b : PolicyBundle)
      → compile hash tenant ps apps ≡ ok b
      → (rules : List L7Rule) × (check_all apps ps ≡ ok rules) × (find_conflict [] ps ≡ none)
  unfolding compile
  stages ps b e = elim (Result-cases (check_all apps ps)) [
    | inr (x, c) ↦ absurd (ok-not-err (compile hash tenant ps apps) x e (rw (compile, c)))
    | inl (rules, c) ↦ elim (Option-cases (find_conflict [] ps)) [
      | inl n ↦ (rules, c, n)
      | inr (x, f) ↦ absurd (ok-not-err (compile hash tenant ps apps) x e (rw (compile, c, f)))
    ]
  ]

  -- A bundle comes from legal policies without a conflict, and holds exactly their rules in
  -- ascending order, under their hash.
  pub compile-ok :
      (ps : List Policy) (b : PolicyBundle)
      → compile hash tenant ps apps ≡ ok b
      → All (IsValid apps) ps
        × Consistent ps
        × (hash b.l7_rules ≡ some b.content_hash)
        × (b ≡ bundle_of tenant ps b.content_hash)
        × IsSorted rule_less b.l7_rules
        × Perm b.l7_rules (map rule_of ps)
  unfolding sort_rules
  compile-ok ps b e =
      let (rules, c, f) = stages ps b e in
      let (valid, same) = check_all-ok apps ps rules c in
      let (h, made) = hashed ps rules b c f e in
      let of_policies : b ≡ bundle_of tenant ps b.content_hash =
        made
        ∙ ap
            (λ r. record {
              tenant_id = tenant;
              version = 0;
              content_hash = b.content_hash;
              l7_rules = sort_rules r;
            })
            same in
      let rules_same : rules_of ps ≡ b.l7_rules = sym (ap (λ x. x.l7_rules) of_policies) in
      (
        valid,
        (find_conflict-none [] ps f).1,
        ap (λ x. hash x.l7_rules) made ∙ h,
        of_policies,
        subst (IsSorted rule_less) rules_same (rules_of-IsSorted ps),
        subst (λ r. Perm r (map rule_of ps)) rules_same
            (stable_sort-perm rule_less (map rule_of ps)),
      )

  -- Listing the policies in another order gives the same bundle.
  pub compile-perm :
      (ps qs : List Policy) (b : PolicyBundle)
      → Permᴰ ps qs
      → compile hash tenant ps apps ≡ ok b
      → compile hash tenant qs apps ≡ ok b
  unfolding sort_rules
  compile-perm ps qs b p e =
      let (v, c, h, same, _, _) = compile-ok ps b e in
      let rules : rules_of qs ≡ rules_of ps =
        sym (stable_sort_permᴰ rule_less rule_less-IsWeakOrder rule_less_tie (map_permᴰ p)) in
      let again : bundle_of tenant qs b.content_hash ≡ b =
        ap
          (λ r. record {
            tenant_id = tenant;
            version = 0;
            content_hash = b.content_hash;
            l7_rules = r;
          })
          rules
        ∙ sym same in
      compile-legal qs b.content_hash (All_permᴰ (IsValid apps) p v) (Consistent-permᴰ p c)
        (ap (λ x. hash x.l7_rules) again ∙ h)
      ∙ ap ok again
