-- ===== src/Policy/Pep/Verdict.antt =====
-- The verdict of Decide on a compiled bundle, in terms of the policies that it was compiled from.
use sase.Prelude.{
  ◌≡◌, refl, sym, ◌∙◌, ap, ◌⊎◌, inl, inr, arith, Bool, true, false, Bool-cases, Option, some, List,
  [], ◌∷◌, All, Any, All-imp,
}
use sase.Prelude.Bytes.{Bytes, bytes, beq, beq_iff, beq_refl, blt, blt_irrefl}
use sase.Prelude.Dict.{Dict, bytes_key}
use sase.Prelude.Int.{lt_int, eq_int, eq_int→eq, eq_int_refl, lt_int_irrefl}
use sase.Prelude.Result.{ok}
use sase.Policy.Xdsv1.{effect_deny, L7Rule, PolicyBundle}
use sase.Policy.Compiler.{Policy, rule_of, rule_less, compile}
use sase.Policy.Pep.{Claims, decide}
use sase.Policy.Pep.FirstMatch.{covers, DecidedBy, decide-bundle}
use sase.Policy.Pep.Covering.{Covering, covers-Covering}

-- The first policy does not come before the second: not by its priority, nor, where that is equal, by
-- its kind of subject, nor, where that is equal too, by the subject's value.
abbrev pub NotBefore : Policy → Policy → Type 0
NotBefore q p =
    (lt_int q.priority p.priority ≡ false)
    × (q.priority ≡ p.priority → blt q.subject_kind p.subject_kind ≡ false)
    × (q.priority ≡ p.priority
        → q.subject_kind ≡ p.subject_kind
        → blt q.subject_value p.subject_value ≡ false)

module _ (q p : Policy) (same : q.resource ≡ p.resource)
    (h : rule_less (rule_of q) (rule_of p) ≡ false) where
  not_before_priority : lt_int q.priority p.priority ≡ false
  unfolding rule_less rule_of
  not_before_priority = elim (Bool-cases (eq_int q.priority p.priority)) [
    | inl b ↦
        let e : q.priority ≡ p.priority = eq_int→eq q.priority p.priority b in
        rw e (lt_int_irrefl p.priority)
    | inr b ↦ rw b at h
  ]

  not_before_kind : q.priority ≡ p.priority → blt q.subject_kind p.subject_kind ≡ false
  unfolding rule_less rule_of
  not_before_kind e = elim (Bool-cases (beq q.subject_kind p.subject_kind)) [
    | inl b ↦
        let k : q.subject_kind ≡ p.subject_kind = (beq_iff q.subject_kind p.subject_kind).0 b in
        rw k (blt_irrefl p.subject_kind)
    | inr b ↦ rw (e, same, eq_int_refl p.priority, beq_refl p.resource, b) at h
  ]

  not_before_value :
      q.priority ≡ p.priority
      → q.subject_kind ≡ p.subject_kind
      → blt q.subject_value p.subject_value ≡ false
  unfolding rule_less rule_of
  not_before_value e k = elim (Bool-cases (beq q.subject_value p.subject_value)) [
    | inl b ↦
        let v : q.subject_value ≡ p.subject_value = (beq_iff q.subject_value p.subject_value).0 b in
        rw v (blt_irrefl p.subject_value)
    | inr b ↦
        rw (e, same, k, eq_int_refl p.priority, beq_refl p.resource, beq_refl p.subject_kind, b) at
          h
  ]

  rule_less-NotBefore : NotBefore q p
  rule_less-NotBefore = (not_before_priority, not_before_kind, not_before_value)

effect_of : (p : Policy) (r : L7Rule) → rule_of p ≡ r → r.effect ≡ p.effect
unfolding rule_of
effect_of p r e = sym (ap (λ x. x.effect) e)

Any_found :
    (P : Policy → Type 0) (ps : List Policy) → Any P ps → (p : Policy) × Any (λ q. q ≡ p) ps × P p
Any_found P [] h = absurd h
Any_found P (p ∷ ps) (inl h) = (p, inl refl, h)
Any_found P (p ∷ ps) (inr m) = let (q, at, h) = Any_found P ps m in (q, inr at, h)

module _ (claims : Claims) (resource action : Bytes) where
  -- The policy that decides: it is one of them, it covers the request, and no other that covers it
  -- comes before.
  pub record FirstCovering (ps : List Policy) (p : Policy) : Type 0 where
    pub present : Any (λ q. q ≡ p) ps
    pub covering : Covering claims resource action p
    pub first : All (λ q. Covering claims resource action q → NotBefore q p) ps

  -- A request that no policy covers is denied.
  abbrev pub DeniedByDefault : List Policy → PolicyBundle → Type 0
  DeniedByDefault ps b =
      All (λ p. Covering claims resource action p → ⊥) ps
      × (decide (some b) claims resource action ≡ bytes "deny")

  by_default :
      (ps : List Policy) (b : PolicyBundle)
      → All (λ p. covers claims resource action (rule_of p) ≡ false) ps
      → decide (some b) claims resource action ≡ effect_deny
      → DeniedByDefault ps b
  by_default ps b h e = (
    All-imp (λ p. covers claims resource action (rule_of p) ≡ false)
        (λ p. Covering claims resource action p → ⊥)
        (λ p miss c.
          let hit = (covers-Covering claims resource action p).1 c in ground (arith, miss, hit))
        ps h,
    e,
  )

  by_first :
      (ps : List Policy) (b : PolicyBundle) (r : L7Rule)
      → DecidedBy claims resource action ps r
      → decide (some b) claims resource action ≡ r.effect
      → (p : Policy) × FirstCovering ps p × (decide (some b) claims resource action ≡ p.effect)
  by_first ps b r d e =
      let (p, present, is_rule) = Any_found (λ p. rule_of p ≡ r) ps d.from_policy in
      let hit : covers claims resource action (rule_of p) ≡ true = rw is_rule d.covering in
      let own = (covers-Covering claims resource action p).0 hit in
      (
        p,
        record {
          present = present;
          covering = own;
          first =
              All-imp
                (λ q.
                  covers claims resource action (rule_of q) ≡ true
                  → rule_less (rule_of q) r ≡ false)
                (λ q. Covering claims resource action q → NotBefore q p)
                (λ q least c.
                  let before : rule_less (rule_of q) (rule_of p) ≡ false =
                    rw is_rule (least ((covers-Covering claims resource action q).1 c)) in
                  rule_less-NotBefore q p (c.0 ∙ sym own.0) before)
                ps d.least;
        },
        e ∙ effect_of p r is_rule,
      )

  -- On a compiled bundle the verdict is the effect of the first policy that covers the request: the one
  -- of the smallest priority, and at equal priorities the first by the kind and then by the value of
  -- its subject. With no such policy it is deny.
  pub decide-compile :
      (hash : List L7Rule → Option Bytes) (tenant : Bytes) (apps : Option (Dict Bytes Bool))
      (ps : List Policy) (b : PolicyBundle)
      → compile hash tenant ps apps ≡ ok b
      → DeniedByDefault ps b
        ⊎ ((p : Policy) × FirstCovering ps p × (decide (some b) claims resource action ≡ p.effect))
  decide-compile hash tenant apps ps b e =
      elim (decide-bundle claims resource action hash tenant apps ps b e) [
        | inl (misses, deny) ↦ inl (by_default ps b misses deny)
        | inr (r, d, effect) ↦ inr (by_first ps b r d effect)
      ]
