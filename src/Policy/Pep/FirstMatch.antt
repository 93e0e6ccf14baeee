-- ===== src/Policy/Pep/FirstMatch.antt =====
-- The verdict of Decide on a compiled bundle, in terms of the rules of its policies.
use sase.Prelude.{
  ◌≡◌, refl, ◌∙◌, ap, ◌⊎◌, inl, inr, arith, Bool, true, false, ◌&&◌, ◌||◌, Bool-cases, Option, some,
  List, [], ◌∷◌, map, is_empty, All, Any, All-imp,
}
use sase.Prelude.Bytes.{Bytes, beq}
use sase.Prelude.Dict.{Dict}
use sase.Prelude.Sort.{IsSorted, All_of_stable_sort, Any_of_stable_sort}
use sase.Prelude.Result.{ok}
use sase.Policy.Xdsv1.{effect_deny, L7Rule, PolicyBundle}
use sase.Policy.Compiler.{Policy, rule_of, rule_less, sort_rules, compile}
use sase.Policy.Compiler.Order.{rule_less_irrefl}
use sase.Policy.Compiler.Correct.{rules_of, rules_of-IsSorted, compile-ok}
use sase.Policy.Pep.{Claims, subject_match, decide_rules, decide}

-- A rule covers a request: same resource, a compatible action, the subject selected.
unfoldable pub covers : Claims → Bytes → Bytes → L7Rule → Bool
covers claims resource action r =
    beq r.resource resource
    && ((is_empty r.action || is_empty action || beq r.action action) && subject_match r claims)

All_of_map :
    (P : L7Rule → Type 0) (ps : List Policy) → All P (map rule_of ps) → All (λ p. P (rule_of p)) ps
All_of_map P [] h = tt
All_of_map P (p ∷ ps) h = (h.0, All_of_map P ps h.1)

Any_of_map :
    (P : L7Rule → Type 0) (ps : List Policy) → Any P (map rule_of ps) → Any (λ p. P (rule_of p)) ps
Any_of_map P [] h = h
Any_of_map P (p ∷ ps) (inl h) = inl h
Any_of_map P (p ∷ ps) (inr h) = inr (Any_of_map P ps h)

module _ (claims : Claims) (resource action : Bytes) where
  abbrev Covers : L7Rule → Type 0
  Covers r = covers claims resource action r ≡ true

  decide_hit :
      (r : L7Rule) (rs : List L7Rule)
      → Covers r
      → decide_rules (r ∷ rs) claims resource action ≡ r.effect
  unfolding decide_rules covers
  decide_hit r rs h = ground arith

  decide_miss :
      (r : L7Rule) (rs : List L7Rule)
      → covers claims resource action r ≡ false
      → decide_rules (r ∷ rs) claims resource action ≡ decide_rules rs claims resource action
  unfolding decide_rules covers
  decide_miss r rs h = ground arith

  -- The least rule, in the order of evaluation, of those that cover the request.
  pub record Decides (rs : List L7Rule) (r : L7Rule) : Type 0 where
    pub present : Any (λ x. x ≡ r) rs
    pub covering : Covers r
    pub least : All (λ x. Covers x → rule_less x r ≡ false) rs

  decide_rules-sorted :
      (rs : List L7Rule)
      → IsSorted rule_less rs
      → (All (λ x. covers claims resource action x ≡ false) rs
          × (decide_rules rs claims resource action ≡ effect_deny))
        ⊎ ((r : L7Rule) × Decides rs r × (decide_rules rs claims resource action ≡ r.effect))
  decide_rules-sorted [] h = inl (tt, unfold decide_rules in refl)
  decide_rules-sorted (r ∷ rs) h = elim (Bool-cases (covers claims resource action r)) [
    | inl hit ↦ inr (
      r,
      record {
        present = inl refl;
        covering = hit;
        least = (λ _. rule_less_irrefl r, All-imp _ _ (λ x e _. e) rs h.0);
      },
      decide_hit r rs hit,
    )
    | inr miss ↦ elim (decide_rules-sorted rs h.1) [
      | inl (none_covers, e) ↦ inl ((miss, none_covers), decide_miss r rs miss ∙ e)
      | inr (x, d, e) ↦ inr (
        x,
        record {
          present = inr d.present;
          covering = d.covering;
          least = (λ c. ground arith, d.least);
        },
        decide_miss r rs miss ∙ e,
      )
    ]
  ]

  -- The same of the policies' rules.
  pub record DecidedBy (ps : List Policy) (r : L7Rule) : Type 0 where
    pub from_policy : Any (λ p. rule_of p ≡ r) ps
    pub covering : Covers r
    pub least : All (λ p. Covers (rule_of p) → rule_less (rule_of p) r ≡ false) ps

  Decides-policies : (ps : List Policy) (r : L7Rule) → Decides (rules_of ps) r → DecidedBy ps r
  unfolding sort_rules
  Decides-policies ps r d = record {
    from_policy =
        Any_of_map (λ x. x ≡ r) ps
          (Any_of_stable_sort rule_less (λ x. x ≡ r) (map rule_of ps) d.present);
    covering = d.covering;
    least =
        All_of_map (λ x. Covers x → rule_less x r ≡ false) ps
          (All_of_stable_sort rule_less (λ x. Covers x → rule_less x r ≡ false) (map rule_of ps)
            d.least);
  }

  decide-rules_of :
      (ps : List Policy) (b : PolicyBundle)
      → b.l7_rules ≡ rules_of ps
      → (All (λ p. covers claims resource action (rule_of p) ≡ false) ps
          × (decide (some b) claims resource action ≡ effect_deny))
        ⊎ ((r : L7Rule) × DecidedBy ps r × (decide (some b) claims resource action ≡ r.effect))
  unfolding decide sort_rules
  decide-rules_of ps b same = elim (decide_rules-sorted (rules_of ps) (rules_of-IsSorted ps)) [
    | inl (misses, e) ↦ inl (
      All_of_map (λ x. covers claims resource action x ≡ false) ps
          (All_of_stable_sort rule_less (λ x. covers claims resource action x ≡ false)
            (map rule_of ps) misses),
      ap (λ rs. decide_rules rs claims resource action) same ∙ e,
    )
    | inr (r, d, e) ↦
        inr (r, Decides-policies ps r d, ap (λ rs. decide_rules rs claims resource action) same ∙ e)
  ]

  -- The verdict on a compiled bundle, by the rules of its policies.
  pub decide-bundle :
      (hash : List L7Rule → Option Bytes) (tenant : Bytes) (apps : Option (Dict Bytes Bool))
      (ps : List Policy) (b : PolicyBundle)
      → compile hash tenant ps apps ≡ ok b
      → (All (λ p. covers claims resource action (rule_of p) ≡ false) ps
          × (decide (some b) claims resource action ≡ effect_deny))
        ⊎ ((r : L7Rule) × DecidedBy ps r × (decide (some b) claims resource action ≡ r.effect))
  decide-bundle hash tenant apps ps b e =
      let (_, _, _, same, _, _) = compile-ok hash tenant apps ps b e in
      decide-rules_of ps b (ap (λ x. x.l7_rules) same)
