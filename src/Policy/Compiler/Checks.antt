-- ===== src/Policy/Compiler/Checks.antt =====
-- The checks of Compile against what they stand for: legal policies, and no two of them with one
-- match set and different effects.
use mathlib.Core.List.{Permᴰ}
use mathlib.Core.Path.{subst}
use mathlib.Core.Option.{some-injective}
use sase.Prelude.{
  ◌≡◌, ◌≢◌, ◌⊎◌, inl, inr, refl, sym, ◌∙◌, ap, arith, Bool, true, false, not, ◌&&◌, ◌||◌, Option,
  none, some, Option-cases, Bool-cases, List, [], ◌∷◌, map, is_empty, not_empty, is_empty-false,
  All, All-imp,
}
use sase.Prelude.Bytes.{Bytes, bytes, beq, beq_iff}
use sase.Prelude.Dict.{Dict, get, put, get-put}
use sase.Prelude.Sort.{All_permᴰ}
use sase.Prelude.Result.{ok, err, Result-cases, ok-not-err}
use sase.Policy.Xdsv1.{valid_risk_level, L7Rule}
use sase.Policy.Compiler.{
  Policy, valid_effect, valid_subject_kind, registered, rule_of, check_policy, check_all, MatchKey,
  match_key, same_key_iff, key_of, find_conflict,
}

-- A legal policy, for the registered applications of the call.
pub record IsValid (apps : Option (Dict Bytes Bool)) (p : Policy) : Type 0 where
  pub effect_listed : valid_effect p.effect ≡ true
  pub kind_listed : valid_subject_kind p.subject_kind ≡ true
  pub risk_listed : p.subject_kind ≡ bytes "risk_gte" → valid_risk_level p.subject_value ≡ true
  pub resource_given : p.resource ≢ []
  pub action_given : p.action ≢ []
  pub app_registered : registered apps p.resource ≡ true

module _ (apps : Option (Dict Bytes Bool)) where
  check_policy-valid : (p : Policy) → IsValid apps p → check_policy apps p ≡ ok (rule_of p)
  unfolding check_policy
  check_policy-valid p v = ground (
    arith,
    v.effect_listed,
    v.kind_listed,
    v.risk_listed,
    v.app_registered,
    is_empty-false p.resource v.resource_given,
    is_empty-false p.action v.action_given,
    beq_iff p.subject_kind (bytes "risk_gte"),
  )

  -- The tests of the body, all of them passed.
  abbrev Passed : Policy → Type 0
  Passed p =
      (valid_effect p.effect ≡ true)
      × (valid_subject_kind p.subject_kind ≡ true)
      × ((beq p.subject_kind (bytes "risk_gte") && not (valid_risk_level p.subject_value)) ≡ false)
      × (is_empty p.resource ≡ false)
      × (is_empty p.action ≡ false)
      × (registered apps p.resource ≡ true)

  check_policy-ok :
      (p : Policy) (r : L7Rule) → check_policy apps p ≡ ok r → Passed p × (r ≡ rule_of p)
  unfolding check_policy
  check_policy-ok p r h = ground arith

  risk_checked :
      (p : Policy)
      → (beq p.subject_kind (bytes "risk_gte") && not (valid_risk_level p.subject_value)) ≡ false
      → p.subject_kind ≡ bytes "risk_gte"
      → valid_risk_level p.subject_value ≡ true
  risk_checked p h e = ground (arith, beq_iff p.subject_kind (bytes "risk_gte"))

  Passed-IsValid : (p : Policy) → Passed p → IsValid apps p
  Passed-IsValid p h = record {
    effect_listed = h.0;
    kind_listed = h.1;
    risk_listed = risk_checked p h.2;
    resource_given = not_empty p.resource h.3;
    action_given = not_empty p.action h.4;
    app_registered = h.5;
  }

  -- The checks pass exactly the lists of legal policies, and give their rules in order.
  pub check_all-valid :
      (ps : List Policy) → All (IsValid apps) ps → check_all apps ps ≡ ok (map rule_of ps)
  unfolding check_all
  check_all-valid [] h = refl
  check_all-valid (p ∷ ps) h = rw (check_policy-valid p h.0, check_all, check_all-valid ps h.1)

  pub check_all-ok :
      (ps : List Policy) (rs : List L7Rule)
      → check_all apps ps ≡ ok rs
      → All (IsValid apps) ps × (rs ≡ map rule_of ps)
  unfolding check_all
  check_all-ok [] rs h = (tt, ground arith)
  check_all-ok (p ∷ ps) rs h = elim (Result-cases (check_policy apps p)) [
    | inr (e, c) ↦ absurd (ok-not-err (err e) e (rw (c, check_all) at h) refl)
    | inl (r, c) ↦ elim (Result-cases (check_all apps ps)) [
      | inr (e, d) ↦ absurd (ok-not-err (err e) e (rw (c, check_all, d) at h) refl)
      | inl (rest, d) ↦
          let k : sase.Prelude.Result.ok (r ∷ rest) ≡ ok rs = rw (c, check_all, d) at h in
          let (passed, g) = check_policy-ok p r c in
          let (valid, i) = check_all-ok ps rest d in
          ((Passed-IsValid p passed, valid), cc (k, g, i))
    ]
  ]

-- Two policies with one match set have one effect.
abbrev pub Agree : Policy → Policy → Type 0
Agree p q = key_of p ≡ key_of q → p.effect ≡ q.effect

-- Any two policies of the list agree.
abbrev pub Consistent : List Policy → Type 0
Consistent [] = Unit {0}
Consistent (p ∷ ps) = All (Agree p) ps × Consistent ps

pub Consistent-permᴰ : {ps qs : List Policy} → Permᴰ ps qs → Consistent ps → Consistent qs
Consistent-permᴰ Permᴰ.nil h = h
Consistent-permᴰ (Permᴰ.cons {a = a} {b = b} {l₁ = l} {l₂ = m} e p) h =
    (All_permᴰ (Agree b) p (subst (λ x. All (Agree x) l) e h.0), Consistent-permᴰ p h.1)
Consistent-permᴰ (Permᴰ.swap {a = a} {b = b} {a' = a'} {l = l} e f) h =
    let swapped : Consistent (b ∷ a ∷ l) = ((λ k. sym (h.0.0 (sym k)), h.1.0), (h.0.1, h.1.1)) in
    subst (λ x. Consistent (a' ∷ x ∷ l)) e (subst (λ x. Consistent (x ∷ a ∷ l)) f swapped)
Consistent-permᴰ (Permᴰ.trans p q) h = Consistent-permᴰ q (Consistent-permᴰ p h)

-- The effects seen so far leave room for the policy.
abbrev Fits : Dict MatchKey Bytes → Policy → Type 0
Fits seen p = (prev : Bytes) → get (key_of p) seen ≡ some prev → prev ≡ p.effect

fits-Agree :
    (seen : Dict MatchKey Bytes) (p q : Policy) → Fits (put (key_of p) p.effect seen) q → Agree p q
fits-Agree seen p q g same =
    g p.effect (
      get-put (key_of p) (key_of q) p.effect seen
      ∙ rw ((same_key_iff (key_of p) (key_of q)).1 same))

fits-step :
    (seen : Dict MatchKey Bytes) (p q : Policy)
    → Fits seen p
    → Fits (put (key_of p) p.effect seen) q
    → Fits seen q
fits-step seen p q f g prev h = elim (Bool-cases (match_key.same (key_of p) (key_of q))) [
  | inl e ↦
      let same = (same_key_iff (key_of p) (key_of q)).0 e in
      f prev (ap (λ k. get k seen) same ∙ h) ∙ fits-Agree seen p q g same
  | inr e ↦ g prev (get-put (key_of p) (key_of q) p.effect seen ∙ rw (e, h))
]

agree-fits :
    (seen : Dict MatchKey Bytes) (p q : Policy)
    → Agree p q
    → Fits seen q
    → Fits (put (key_of p) p.effect seen) q
agree-fits seen p q a f prev h =
    let k = sym (get-put (key_of p) (key_of q) p.effect seen) ∙ h in
    elim (Bool-cases (match_key.same (key_of p) (key_of q))) [
      | inl e ↦
          sym (some-injective p.effect prev (rw e at k))
          ∙ a ((same_key_iff (key_of p) (key_of q)).0 e)
      | inr e ↦ f prev (rw e at k)
    ]

found_fits :
    (seen : Dict MatchKey Bytes) (p : Policy) (ps : List Policy)
    → find_conflict seen (p ∷ ps) ≡ none
    → Fits seen p
unfolding find_conflict
found_fits seen p ps h prev e = ground (arith, beq_iff prev p.effect)

found_rest :
    (seen : Dict MatchKey Bytes) (p : Policy) (ps : List Policy)
    → find_conflict seen (p ∷ ps) ≡ none
    → find_conflict (put (key_of p) p.effect seen) ps ≡ none
unfolding find_conflict
found_rest seen p ps h = ground arith

passes :
    (seen : Dict MatchKey Bytes) (p : Policy) (ps : List Policy)
    → Fits seen p
    → find_conflict (put (key_of p) p.effect seen) ps ≡ none
    → find_conflict seen (p ∷ ps) ≡ none
unfolding find_conflict
passes seen p ps f h = elim (Option-cases (get (key_of p) seen)) [
  | inl e ↦ rw (find_conflict, e) h
  | inr (prev, e) ↦ let same = beq_iff prev p.effect in let g = f prev e in ground arith
]

later :
    (seen : Dict MatchKey Bytes) (p : Policy) (ps : List Policy)
    → All (Fits seen) ps
    → All (Agree p) ps
    → All (Fits (put (key_of p) p.effect seen)) ps
later seen p [] h a = tt
later seen p (q ∷ ps) h a = (agree-fits seen p q a.0 h.0, later seen p ps h.1 a.1)

-- The conflict search against the effects seen so far.
pub find_conflict-none :
    (seen : Dict MatchKey Bytes) (ps : List Policy)
    → find_conflict seen ps ≡ none
    → All (Fits seen) ps × Consistent ps
unfolding find_conflict
find_conflict-none seen [] h = (tt, tt)
find_conflict-none seen (p ∷ ps) h =
    let fits = found_fits seen p ps h in
    let (later, consistent) =
      find_conflict-none (put (key_of p) p.effect seen) ps (found_rest seen p ps h) in
    (
      (fits, All-imp _ _ (λ q. fits-step seen p q fits) ps later),
      (All-imp _ _ (fits-Agree seen p) ps later, consistent),
    )

pub find_conflict-Consistent :
    (seen : Dict MatchKey Bytes) (ps : List Policy)
    → All (Fits seen) ps
    → Consistent ps
    → find_conflict seen ps ≡ none
find_conflict-Consistent seen [] h c = unfold find_conflict in refl
find_conflict-Consistent seen (p ∷ ps) h c =
    passes seen p ps h.0
      (find_conflict-Consistent (put (key_of p) p.effect seen) ps (later seen p ps h.1 c.0) c.1)
