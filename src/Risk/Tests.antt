-- ===== src/Risk/Tests.antt =====
-- A subject seen with one session, and one never seen with any.
use sase.Prelude.{◌≡◌, ◌≢◌, ◌↔◌, refl, arith, true, false, [], none, some, min}
use sase.Prelude.Bytes.{Bytes, bytes, beq}
use sase.Prelude.Dict.{get, put, IsKeyed, bytes_key}
use sase.Risk
use sase.Risk.{
  Factor, Assessment, SubjectKey, subject_key, SubjectState, Service, new_service, level_of, total,
  observe, observe_posture, observe_subject,
}
use sase.Risk.Score.{factor_after, sum_weights, named_level, observe_subject-score}
use sase.Risk.Mutation.{Signal, step, session_after, new-IsSound, step-fires, step-no_session}

abbrev rooted : Factor
rooted = record { id = bytes "posture"; weight = 90; expire_at = none }

abbrev card_found : Factor
card_found = record { id = bytes "dlp:card"; weight = 50; expire_at = none }

abbrev unknown_state : SubjectState
unknown_state = record { factors = []; last_jti = []; fired_jti = [] }

abbrev with_session : Signal
with_session = record { now = 1; later = 2; jti = bytes "j1"; factor = rooted; sticky = true }

abbrev next_session : Signal
next_session = record { now = 3; later = 4; jti = bytes "j2"; factor = card_found; sticky = false }

abbrev without_session : Signal
without_session = record { now = 1; later = 2; jti = []; factor = rooted; sticky = true }

step-fires_example :
    let (st', a, _) = step with_session unknown_state in
    let (_, b, fired) = step next_session st' in
    (fired ≡ some (bytes "j2")) ↔ (
      (b.level ≡ bytes "critical")
      × (bytes "j2" ≡ session_after next_session st')
      × (bytes "j2" ≢ [])
      × (a.level ≡ bytes "critical" → bytes "j2" ≢ st'.last_jti))
step-fires_example = step-fires with_session next_session unknown_state (bytes "j2")

no_session_seen : (step without_session unknown_state).0.last_jti ≡ []
unfolding observe_subject Risk.assess_locked Risk.with_factor Risk.settle level_of Risk.live
    Risk.total Risk.is_expired put get beq
no_session_seen = refl

step-no_session_example : (step without_session unknown_state).2 ≡ none
step-no_session_example = step-no_session without_session unknown_state new-IsSound no_session_seen

not_compliant : bytes "jailbroken" ≢ bytes "compliant"
not_compliant e = ground arith

observe_subject-score_example :
    let (st', a, _) = observe_subject 1 2 (bytes "j1") card_found false unknown_state in
    ((id : Bytes) → get id st'.factors ≡ factor_after 1 2 card_found false unknown_state id)
    × (a.score ≡ min 100 (sum_weights st'.factors))
    × (a.level ≡ named_level a.score)
    × IsKeyed st'.factors
observe_subject-score_example =
    observe_subject-score 1 2 (bytes "j1") card_found false unknown_state tt

abbrev bob : SubjectKey
bob = record { tenant = bytes "acme"; subject = bytes "bob" }

bob_is_not_ann : bob ≢ record { tenant = bytes "acme"; subject = bytes "ann" }
bob_is_not_ann e = ground arith
