-- ===== src/Risk/Mutation.antt =====
-- When the mutation callback is due: once per session in a critical phase.
use sase.Prelude.{
  ℕ, ◌≡◌, ◌≢◌, ◌↔◌, true, false, Bool-cases, inl, inr, is_empty, refl, sym, ◌∙◌, ap, arith, Bool,
  not, ◌&&◌, [], Option, none, some, if◌then◌else◌, is_empty-false,
}
use mathlib.Core.Option.{some-injective}
use sase.Prelude.Bytes.{Bytes, bytes, beq, beq_iff}
use sase.Policy.Xdsv1.{risk_critical}
use sase.Risk.{
  Factor, Assessment, SubjectState, assess_locked, with_factor, settle, observe_subject,
}

is_critical : Assessment → Bool
is_critical a = beq a.level risk_critical

-- One observation, as its arguments.
pub record Signal : Type 0 where
  pub now : ℕ
  pub later : ℕ
  pub jti : Bytes
  pub factor : Factor
  pub sticky : Bool

abbrev pub step : Signal → SubjectState → SubjectState × Assessment × Option Bytes
step x st = observe_subject x.now x.later x.jti x.factor x.sticky st

settled_jti :
    (st : SubjectState) (a : Assessment)
    → (settle st a).0.fired_jti ≡ (if is_critical a then st.last_jti else [])
unfolding settle is_critical
settled_jti st a = ground (arith, beq_iff st.fired_jti st.last_jti)

settled_fire :
    (st : SubjectState) (a : Assessment)
    → (settle st a).1 ≡ (is_critical a && not (beq st.fired_jti st.last_jti))
unfolding settle is_critical
settled_fire st a = ground arith

settled_last : (st : SubjectState) (a : Assessment) → (settle st a).0.last_jti ≡ st.last_jti
unfolding settle
settled_last st a = ground arith

module _ (x : Signal) (st : SubjectState) where
  -- The state between the assessment and the decision on the callback.
  abbrev assessed : SubjectState
  assessed = (assess_locked x.later (with_factor x.now x.jti x.factor x.sticky st)).0

  fired_now : (step x st).2 ≡ (
      if is_critical (step x st).1 && not (beq assessed.fired_jti assessed.last_jti)
      then some assessed.last_jti
      else none)
  unfolding observe_subject
  fired_now = ap (λ b. if b then some assessed.last_jti else none) (settled_fire assessed _)

  last_now : (step x st).0.last_jti ≡ assessed.last_jti
  unfolding observe_subject
  last_now = settled_last assessed _

  kept : assessed.fired_jti ≡ st.fired_jti
  unfolding assess_locked with_factor
  kept = refl

  remembers :
      (step x st).0.fired_jti ≡ (if is_critical (step x st).1 then (step x st).0.last_jti else [])
  unfolding observe_subject
  remembers =
      settled_jti assessed _ ∙ ap (λ t. if is_critical (step x st).1 then t else []) (sym last_now)

  fires : (step x st).2 ≡ (
      if is_critical (step x st).1 && not (beq st.fired_jti (step x st).0.last_jti)
      then some (step x st).0.last_jti
      else none)
  unfolding observe_subject with_factor assess_locked
  fires = rw (last_now, sym kept) fired_now

last_kept : (x : Signal) (st : SubjectState) → (step x st).0.last_jti ≡ [] → st.last_jti ≡ []
unfolding observe_subject assess_locked with_factor
last_kept x st e = let k = sym (last_now x st) ∙ e in ground (arith, is_empty-false x.jti)

-- The callback of an observation, by whether the one before was critical and whether it is, and the
-- sessions seen before and after it: none is seen after it only if none was before.
unless_same : (old new : Bytes) → (beq old new ≡ false) ↔ (old ≢ new)
unless_same old new = ground (arith, beq_iff old new)

fired_iff :
    (now : Bool) (old new j : Bytes)
    → ((if now && not (beq old new) then some new else none) ≡ some j)
      ↔ ((now ≡ true) × (j ≡ new) × (j ≢ old))
fired_iff false old new j = (λ e. absurd (cc), λ h. absurd (cc))
fired_iff true old new j = elim (Bool-cases (beq old new)) [
  | inl b ↦ rw b (λ e. absurd (cc), λ h. absurd (h.2 (h.1 ∙ sym ((beq_iff old new).0 b))))
  | inr b ↦ rw b (
    λ e.
        let same : new ≡ j = some-injective new j e in
        (refl, sym same, λ q. (unless_same old new).0 b (sym (same ∙ q))),
    λ h. ap some (sym h.1),
  )
]

fire_iff :
    (before now : Bool) (old new j : Bytes)
    → (new ≡ [] → old ≡ [])
    → ((if now && not (beq (if before then old else []) new) then some new else none) ≡ some j)
      ↔ ((now ≡ true) × (j ≡ new) × (j ≢ []) × (before ≡ true → j ≢ old))
fire_iff true now old new j k =
    let law = fired_iff now old new j in
    (
      λ e. let (c, s, d) = law.0 e in (c, s, λ n. d (n ∙ sym (k (sym s ∙ n))), λ _. d),
      λ h. law.1 (h.0, h.1, h.3 refl),
    )
fire_iff false now old new j k =
    let law = fired_iff now [] new j in
    (λ e. let (c, s, d) = law.0 e in (c, s, d, λ n. absurd (cc)), λ h. law.1 (h.0, h.1, h.2))

level_critical : (a : Assessment) → is_critical a ≡ true → a.level ≡ bytes "critical"
unfolding is_critical
level_critical a h = (beq_iff a.level risk_critical).0 h

critical_level : (a : Assessment) → a.level ≡ bytes "critical" → is_critical a ≡ true
unfolding is_critical
critical_level a h = (beq_iff a.level risk_critical).1 h

-- The last session that was seen, once an observation came.
pub session_after : Signal → SubjectState → Bytes
session_after y st = if is_empty y.jti then st.last_jti else y.jti

last-session_after : (y : Signal) (st : SubjectState) → (step y st).0.last_jti ≡ session_after y st
unfolding session_after observe_subject assess_locked with_factor
last-session_after y st = last_now y st ∙ ground arith

-- After any observation, the next one calls back exactly when it is critical, some session was seen,
-- and that is not the session that the one before left, if that one was critical too; it calls back
-- with the session seen last.
pub step-fires :
    (x y : Signal) (st : SubjectState) (j : Bytes)
    → let (st', a, _) = step x st in
      let (_, b, fired) = step y st' in
      (fired ≡ some j) ↔ (
        (b.level ≡ bytes "critical")
        × (j ≡ session_after y st')
        × (j ≢ [])
        × (a.level ≡ bytes "critical" → j ≢ st'.last_jti))
step-fires x y st j =
    let st' = (step x st).0 in
    let a = (step x st).1 in
    let b = (step y st').1 in
    let formula = fires y st' in
    let seen = last-session_after y st' in
    let law =
      fire_iff (is_critical a) (is_critical b) st'.last_jti (session_after y st') j
        (λ e. last_kept y st' (seen ∙ e)) in
    rw (formula, remembers x st, seen)
      (
        λ h. let (c, s, n, d) = law.0 h in (level_critical b c, s, n, λ e. d (critical_level a e)),
        λ h. law.1 (critical_level b h.0, h.1, h.2, λ e. h.3 (level_critical a e)),
      )

-- What a subject's state keeps: as long as no session was seen, none is remembered.
pub IsSound : SubjectState → Type 0
IsSound st = st.last_jti ≡ [] → st.fired_jti ≡ []

pub new-IsSound : IsSound (record { factors = []; last_jti = []; fired_jti = [] })
unfolding IsSound
new-IsSound e = refl

pub step-IsSound : (x : Signal) (st : SubjectState) → IsSound (step x st).0
unfolding IsSound
step-IsSound x st e = remembers x st ∙ ground arith

no_fire :
    (b : Bool) (last fired : Bytes)
    → last ≡ []
    → fired ≡ []
    → (if b && not (beq fired last) then some last else none) ≡ none
no_fire b last fired e f = ground (arith, beq_iff fired last)

-- A subject of whom no session was ever seen calls nothing back, however high its risk.
pub step-no_session :
    (x : Signal) (st : SubjectState)
    → IsSound st
    → (step x st).0.last_jti ≡ []
    → (step x st).2 ≡ none
unfolding IsSound
step-no_session x st sound e =
    fires x st
    ∙ no_fire (is_critical (step x st).1) (step x st).0.last_jti st.fired_jti e
        (sound (last_kept x st e))
