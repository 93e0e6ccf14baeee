-- ===== src/Policy/Pep/Covering.antt =====
-- Which requests a policy covers, said without the code.
use sase.Prelude.{
  ℕ, ◌≤◌, ◌≡◌, ◌↔◌, refl, ◌⊎◌, inl, inr, arith, Bool, true, false, ◌&&◌, ◌||◌, Bool-cases, &&-true,
  leb→le, List, [], ◌∷◌, is_empty, Any, if◌then◌else◌, leb,
}
use sase.Prelude.Bytes.{Bytes, bytes, beq, beq_iff}
use sase.Prelude.Dict.{get, bytes_key}
use sase.Policy.Xdsv1.{risk_at_least, rank_of}
use sase.Policy.Compiler.{Policy, rule_of}
use sase.Policy.Pep.{Claims, has_group, subject_match}
use sase.Policy.Pep.FirstMatch.{covers}

-- How grave a risk level is; one that is not listed counts as low.
unfoldable pub gravity : Bytes → ℕ
gravity level =
    if beq (bytes "medium") level
    then 1
    else if beq (bytes "high") level
    then 2
    else if beq (bytes "critical") level
    then 3
    else 0

-- A policy selects the subject of a request: by name, by a group, by the posture, or by a risk level
-- that is at least as grave.
abbrev pub Selects : Claims → Policy → Type 0
Selects claims p =
    ((p.subject_kind ≡ bytes "user") × (claims.subject ≡ p.subject_value))
    ⊎ (((p.subject_kind ≡ bytes "group") × Any (λ g. g ≡ p.subject_value) claims.groups)
        ⊎ (((p.subject_kind ≡ bytes "posture") × (claims.posture ≡ p.subject_value))
            ⊎ ((p.subject_kind ≡ bytes "risk_gte")
                × (gravity p.subject_value ≤ gravity claims.risk_level))))

-- A policy covers a request: the same resource, the same action unless one of them names none, and a
-- subject that it selects.
abbrev pub Covering : Claims → Bytes → Bytes → Policy → Type 0
Covering claims resource action p =
    (p.resource ≡ resource)
    × ((p.action ≡ []) ⊎ ((action ≡ []) ⊎ (p.action ≡ action)))
    × Selects claims p

rank_of-gravity : (level : Bytes) → rank_of level ≡ gravity level
unfolding rank_of get gravity
rank_of-gravity level = elim (Bool-cases (beq (bytes "low") level)) [
  | inl l ↦
      let low : bytes "low" ≡ level = (beq_iff (bytes "low") level).0 l in
      rw (← low) (unfold beq in refl)
  | inr l ↦ elim (Bool-cases (beq (bytes "medium") level)) [
    | inl m ↦ rw (l, m) refl
    | inr m ↦ elim (Bool-cases (beq (bytes "high") level)) [
      | inl h ↦ rw (l, m, h) refl
      | inr h ↦ elim (Bool-cases (beq (bytes "critical") level)) [
        | inl c ↦ rw (l, m, h, c) refl
        | inr c ↦ rw (l, m, h, c) refl
      ]
    ]
  ]
]

has_group_iff : (gs : List Bytes) (v : Bytes) → (has_group gs v ≡ true) ↔ Any (λ g. g ≡ v) gs
unfolding has_group
has_group_iff [] v = (λ e. absurd (cc), λ h. absurd h)
has_group_iff (g ∷ gs) v =
    let rest = has_group_iff gs v in
    let head = beq_iff g v in
    elim (Bool-cases (beq g v)) [
      | inl b ↦ rw b (λ _. inl (head.0 b), λ _. refl)
      | inr b ↦ rw b (
        λ e. inr (rest.0 e),
        λ h. elim h [ inl e ↦ absurd (ground (arith, head.1 e)) | inr m ↦ rest.1 m ],
      )
    ]

leb_iff : (a b : ℕ) → (leb a b ≡ true) ↔ (a ≤ b)
leb_iff a b = (λ h. leb→le a b h, λ h. ground arith)

risk_iff :
    (level least : Bytes) → (risk_at_least level least ≡ true) ↔ (gravity least ≤ gravity level)
unfolding risk_at_least
risk_iff level least =
    rw (rank_of-gravity level, rank_of-gravity least) (leb_iff (gravity least) (gravity level))

module _ (claims : Claims) (p : Policy) where
  selects-user :
      p.subject_kind ≡ bytes "user"
      → (subject_match (rule_of p) claims ≡ true) ↔ (claims.subject ≡ p.subject_value)
  unfolding subject_match rule_of beq
  selects-user e = rw e (beq_iff claims.subject p.subject_value)

  selects-group :
      p.subject_kind ≡ bytes "group"
      → (subject_match (rule_of p) claims ≡ true) ↔ Any (λ g. g ≡ p.subject_value) claims.groups
  unfolding subject_match rule_of beq
  selects-group e = rw e (has_group_iff claims.groups p.subject_value)

  selects-posture :
      p.subject_kind ≡ bytes "posture"
      → (subject_match (rule_of p) claims ≡ true) ↔ (claims.posture ≡ p.subject_value)
  unfolding subject_match rule_of beq
  selects-posture e = rw e (beq_iff claims.posture p.subject_value)

  selects-risk :
      p.subject_kind ≡ bytes "risk_gte"
      → (subject_match (rule_of p) claims ≡ true)
        ↔ (gravity p.subject_value ≤ gravity claims.risk_level)
  unfolding subject_match rule_of beq
  selects-risk e = rw e (risk_iff claims.risk_level p.subject_value)

  -- A rule of another kind selects nobody.
  selects-kind :
      subject_match (rule_of p) claims ≡ true
      → (p.subject_kind ≡ bytes "user")
        ⊎ ((p.subject_kind ≡ bytes "group")
            ⊎ ((p.subject_kind ≡ bytes "posture") ⊎ (p.subject_kind ≡ bytes "risk_gte")))
  unfolding subject_match rule_of
  selects-kind h = elim (Bool-cases (beq p.subject_kind (bytes "user"))) [
    | inl b ↦ inl ((beq_iff p.subject_kind (bytes "user")).0 b)
    | inr u ↦ elim (Bool-cases (beq p.subject_kind (bytes "group"))) [
      | inl b ↦ inr (inl ((beq_iff p.subject_kind (bytes "group")).0 b))
      | inr g ↦ elim (Bool-cases (beq p.subject_kind (bytes "posture"))) [
        | inl b ↦ inr (inr (inl ((beq_iff p.subject_kind (bytes "posture")).0 b)))
        | inr s ↦ elim (Bool-cases (beq p.subject_kind (bytes "risk_gte"))) [
          | inl b ↦ inr (inr (inr ((beq_iff p.subject_kind (bytes "risk_gte")).0 b)))
          | inr r ↦ let none : false ≡ true = rw (u, g, s, r) at h in absurd (cc)
        ]
      ]
    ]
  ]

  subject_match-Selects : (subject_match (rule_of p) claims ≡ true) ↔ Selects claims p
  subject_match-Selects = (
    λ h. elim (selects-kind h) [
      | inl e ↦ inl (e, (selects-user e).0 h)
      | inr (inl e) ↦ inr (inl (e, (selects-group e).0 h))
      | inr (inr (inl e)) ↦ inr (inr (inl (e, (selects-posture e).0 h)))
      | inr (inr (inr e)) ↦ inr (inr (inr (e, (selects-risk e).0 h)))
    ],
    λ s. elim s [
      | inl (e, h) ↦ (selects-user e).1 h
      | inr (inl (e, h)) ↦ (selects-group e).1 h
      | inr (inr (inl (e, h))) ↦ (selects-posture e).1 h
      | inr (inr (inr (e, h))) ↦ (selects-risk e).1 h
    ],
  )

is_empty_iff : (b : Bytes) → (is_empty b ≡ true) ↔ (b ≡ [])
is_empty_iff [] = (λ _. refl, λ _. refl)
is_empty_iff (x ∷ b) = (λ h. absurd (cc), λ h. absurd (cc))

action_fits :
    (own action : Bytes)
    → ((is_empty own || is_empty action || beq own action) ≡ true)
      ↔ ((own ≡ []) ⊎ ((action ≡ []) ⊎ (own ≡ action)))
action_fits own action = ground (arith, is_empty_iff own, is_empty_iff action, beq_iff own action)

both : (a b : Bool) → a ≡ true → b ≡ true → (a && b) ≡ true
both a b h k = ground arith

pub covers-Covering :
    (claims : Claims) (resource action : Bytes) (p : Policy)
    → (covers claims resource action (rule_of p) ≡ true) ↔ Covering claims resource action p
unfolding covers rule_of
covers-Covering claims resource action p =
    let subject = subject_match-Selects claims p in
    let same = beq_iff p.resource resource in
    let fits = action_fits p.action action in
    (
      λ h.
          let (r, m) = &&-true (beq p.resource resource) _ h in
          let (a, s) = &&-true (is_empty p.action || is_empty action || beq p.action action) _ m in
          (same.0 r, fits.0 a, subject.0 s),
      λ h. both _ _ (same.1 h.0) (both _ _ (fits.1 h.1) (subject.1 h.2)),
    )
