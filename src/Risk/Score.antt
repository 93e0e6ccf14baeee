-- ===== src/Risk/Score.antt =====
-- Scores: their bounds, what a posture report does to them, and that subjects are independent.
use sase.Prelude.{
  ℕ, ◌+◌, ◌==◌, not, leb, some, Option, if◌then◌else◌, ap, ◌≤◌, ◌≡◌, ◌≢◌, refl, sym, ◌∙◌, arith,
  Bool, true, false, Bool-cases, inl, inr, [], ◌∷◌, none, ltb, min,
}
use sase.Prelude.Bytes.{Bytes, bytes, beq, beq_iff}
use sase.Prelude.Dict.{
  Dict, get, put, get-put, get-del, IsKeyed, put-IsKeyed, del-IsKeyed, bytes_key,
}
use sase.Policy.Xdsv1.{risk_critical, rank_of}
use sase.Risk.{
  Factor, SubjectKey, SubjectState, subject_key, same_subject_iff, Service, level_of, is_expired,
  live, total, assess_locked, with_factor, settle, weight_posture_non_compliant, observe_subject,
  observe, observe_posture, state_of, event_factor_ttl,
}

-- Higher scores have levels of at least the same rank.
pub level_of-monotone : (a b : ℕ) → a ≤ b → rank_of (level_of a) ≤ rank_of (level_of b)
unfolding level_of rank_of get beq
level_of-monotone a b h = ground arith

assess_locked-score :
    (now : ℕ) (st : SubjectState)
    → ((assess_locked now st).1.score ≡ min 100 (total (live now st.factors)))
      × ((assess_locked now st).1.level ≡ level_of (assess_locked now st).1.score)
unfolding assess_locked
assess_locked-score now st = (ground arith, refl)

-- A factor, unless its time is over.
abbrev pub unexpired : ℕ → Option Factor → Option Factor
unexpired now none = none
unexpired now (some f) = elim f.expire_at [
  | none ↦ some f
  | some t ↦ if ltb t now then none else some f
]

-- The factor that stands under a name after an observation: the one observed, unless its weight is 0,
-- which lasts half an hour if it is not sticky; and the old ones under the other names.
abbrev pub factor_after : ℕ → ℕ → Factor → Bool → SubjectState → Bytes → Option Factor
factor_after now later f sticky st id = unexpired later (
    if beq f.id id
    then (if f.weight == 0
        then none
        else some (if sticky then f else record f { expire_at = some (now + 1800000000000) }))
    else get id st.factors)

abbrev pub sum_weights : Dict Bytes Factor → ℕ
sum_weights [] = 0
sum_weights ((k, f) ∷ m) = f.weight + sum_weights m

abbrev pub named_level : ℕ → Bytes
named_level score =
    if leb 85 score
    then bytes "critical"
    else if leb 60 score
    then bytes "high"
    else if leb 30 score
    then bytes "medium"
    else bytes "low"

live-none :
    (now : ℕ) (id : Bytes) (m : Dict Bytes Factor) → get id m ≡ none → get id (live now m) ≡ none
unfolding live get
live-none now id [] h = refl
live-none now id ((k, f) ∷ m) h = ground (arith, live-none now id m)

get-live :
    (now : ℕ) (id : Bytes) (m : Dict Bytes Factor)
    → IsKeyed m
    → get id (live now m) ≡ unexpired now (get id m)
unfolding live get is_expired
get-live now id [] h = refl
get-live now id ((k, f) ∷ m) h = elim (Bool-cases (beq k id)) [
  | inl b ↦
      let same : k ≡ id = (beq_iff k id).0 b in
      ground (arith, get-live now id m h.1, live-none now id m (rw (← same) h.0))
  | inr b ↦ ground (arith, get-live now id m h.1)
]

total-sum : (m : Dict Bytes Factor) → total m ≡ sum_weights m
unfolding total
total-sum [] = refl
total-sum ((k, f) ∷ m) = ap (λ t. f.weight + t) (total-sum m)

with_factor-IsKeyed :
    (now : ℕ) (jti : Bytes) (f : Factor) (sticky : Bool) (st : SubjectState)
    → IsKeyed st.factors
    → IsKeyed (with_factor now jti f sticky st).factors
unfolding with_factor
with_factor-IsKeyed now jti f sticky st h = elim (Bool-cases (ltb 0 f.weight)) [
  | inl b ↦ rw b (put-IsKeyed f.id _ st.factors h)
  | inr b ↦ rw b (del-IsKeyed f.id st.factors h)
]

get-with_factor :
    (now later : ℕ) (jti : Bytes) (f : Factor) (sticky : Bool) (st : SubjectState) (id : Bytes)
    → unexpired later (get id (with_factor now jti f sticky st).factors)
      ≡ factor_after now later f sticky st id
unfolding with_factor
get-with_factor now later jti f sticky st id = elim (Bool-cases (ltb 0 f.weight)) [
  | inl b ↦
      rw
        (
          b,
          get-put f.id id
              (if not sticky then record f { expire_at = some (now + event_factor_ttl) } else f)
              st.factors,
        )
        (ground arith)
  | inr b ↦ rw (b, get-del f.id id st.factors) (ground arith)
]

live-IsKeyed : (now : ℕ) (m : Dict Bytes Factor) → IsKeyed m → IsKeyed (live now m)
unfolding live
live-IsKeyed now [] h = tt
live-IsKeyed now ((k, f) ∷ m) h = elim (Bool-cases (is_expired now f)) [
  | inl b ↦ rw b (live-IsKeyed now m h.1)
  | inr b ↦ rw b (live-none now k m h.0, live-IsKeyed now m h.1)
]

module _ (now later : ℕ) (jti : Bytes) (f : Factor) (sticky : Bool) (st : SubjectState) where
  observed-factors :
      (observe_subject now later jti f sticky st).0.factors
      ≡ live later (with_factor now jti f sticky st).factors
  unfolding observe_subject assess_locked settle
  observed-factors = ground arith

  observed-score :
      (observe_subject now later jti f sticky st).1.score
      ≡ min 100 (total (live later (with_factor now jti f sticky st).factors))
  unfolding observe_subject
  observed-score = (assess_locked-score later (with_factor now jti f sticky st)).0

  observed-level :
      (observe_subject now later jti f sticky st).1.level
      ≡ named_level (observe_subject now later jti f sticky st).1.score
  unfolding observe_subject assess_locked level_of
  observed-level = refl

-- Every observation of a subject leaves the factors that are not over: the observed one, held for
-- half an hour if it is not sticky or removed if its weight is 0, and the ones before. It is assessed
-- with the sum of their weights, at most 100, and with the level of that score: critical from 85 on,
-- high from 60, medium from 30, low below. The subject's factors have one name each.
pub observe_subject-score :
    (now later : ℕ) (jti : Bytes) (f : Factor) (sticky : Bool) (st : SubjectState)
    → IsKeyed st.factors
    → let (st', a, _) = observe_subject now later jti f sticky st in
      ((id : Bytes) → get id st'.factors ≡ factor_after now later f sticky st id)
      × (a.score ≡ min 100 (sum_weights st'.factors))
      × (a.level ≡ named_level a.score)
      × IsKeyed st'.factors
observe_subject-score now later jti f sticky st h =
    let held = with_factor now jti f sticky st in
    let keyed = with_factor-IsKeyed now jti f sticky st h in
    let left = observed-factors now later jti f sticky st in
    (
      λ id.
          rw left
            (get-live later id held.factors keyed ∙ get-with_factor now later jti f sticky st id),
      rw (left, observed-score now later jti f sticky st)
          (ap (min 100) (total-sum (live later held.factors))),
      observed-level now later jti f sticky st,
      rw left (live-IsKeyed later held.factors keyed),
    )

total-put :
    (now : ℕ) (k : Bytes) (f : Factor) (m : Dict Bytes Factor)
    → is_expired now f ≡ false
    → f.weight ≤ total (live now (put k f m))
unfolding total live put
total-put now k f [] h = ground arith
total-put now k f ((j, g) ∷ m) h = ground (arith, total-put now k f m h)

sticky_added :
    (now later : ℕ) (jti : Bytes) (f : Factor) (st : SubjectState)
    → f.expire_at ≡ none
    → f.weight ≤ total (live later (with_factor now jti f true st).factors)
unfolding with_factor is_expired
sticky_added now later jti f st e = elim (Bool-cases (ltb 0 f.weight)) [
  | inl p ↦ rw p (total-put later f.id f st.factors (rw (e, is_expired)))
  | inr p ↦ ground arith
]

critical_score :
    (now : ℕ) (st : SubjectState)
    → 85 ≤ total (live now st.factors)
    → (assess_locked now st).1.level ≡ risk_critical
unfolding assess_locked level_of
critical_score now st h = ground arith

-- The factor that a posture sets when it is not compliant.
abbrev non_compliant : Factor
non_compliant = record {
  id = bytes "posture";
  weight = weight_posture_non_compliant;
  expire_at = none;
}

observe_critical :
    (now later : ℕ) (s : Service) (tenant subject jti : Bytes)
    → (observe now later s tenant subject jti non_compliant true).1.level ≡ risk_critical
unfolding observe observe_subject
observe_critical now later s tenant subject jti =
    let st = state_of (record { tenant = tenant; subject = subject }) s in
    critical_score later (with_factor now jti non_compliant true st)
      (omega (arith, sticky_added now later jti non_compliant st refl))

-- A posture that is not compliant makes its subject critical, whatever was known of it before.
pub observe_posture-critical :
    (now later : ℕ) (s : Service) (tenant subject jti posture : Bytes)
    → posture ≢ bytes "compliant"
    → (observe_posture now later s tenant subject jti posture).1.level ≡ risk_critical
unfolding observe_posture
observe_posture-critical now later s tenant subject jti posture h =
    elim (Bool-cases (beq posture (bytes "compliant"))) [
      | inl e ↦ absurd (h ((beq_iff posture (bytes "compliant")).0 e))
      | inr e ↦ rw e (observe_critical now later s tenant subject jti)
    ]

differ : (a b : SubjectKey) → b ≢ a → subject_key.same a b ≡ false
differ a b h = elim (Bool-cases (subject_key.same a b)) [
  | inl e ↦ absurd (h (sym ((same_subject_iff a b).0 e)))
  | inr e ↦ e
]

-- An observation changes no other subject.
pub observe-others :
    (now later : ℕ) (s : Service) (tenant subject jti : Bytes) (f : Factor) (sticky : Bool)
    (k : SubjectKey)
    → k ≢ record { tenant = tenant; subject = subject }
    → get k (observe now later s tenant subject jti f sticky).0 ≡ get k s
unfolding observe
observe-others now later s tenant subject jti f sticky k h =
    let own : SubjectKey = record { tenant = tenant; subject = subject } in
    let st = observe_subject now later jti f sticky (state_of own s) in
    get-put own k st.0 s ∙ rw (differ own k h)
