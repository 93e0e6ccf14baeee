-- ===== src/Risk.antt =====
-- internal/risk/risk.go and service.go: the risk engine of the control plane, and
-- internal/pop/revocation.go, the store of what it leads to. Clocks are arguments in nanoseconds,
-- one for each reading; the mutex makes each call one step. The snapshot that observe hands to an
-- optional database changes no state of the service and is left out.
pub mod Score
pub mod Mutation
pub mod Revocation
mod Tests
use sase.Prelude.{
  ℕ, ◌+◌, ◌*◌, ◌≡◌, ◌↔◌, refl, arith, Bool, true, false, not, ◌&&◌, ◌||◌, List, [], ◌∷◌, Option,
  none, some, if◌then◌else◌, is_empty, ltb, leb, ◌++◌,
}
use sase.Prelude.Bytes.{Bytes, bytes, beq, beq_iff}
use sase.Prelude.Dict.{Dict, Key, get, put, del, bytes_key}
use sase.Policy.Xdsv1.{risk_low, risk_medium, risk_high, risk_critical}

unfoldable pub level_of : ℕ → Bytes
level_of score =
    if leb 85 score
    then risk_critical
    else if leb 60 score
    then risk_high
    else if leb 30 score
    then risk_medium
    else risk_low

abbrev pub weight_posture_non_compliant : ℕ
weight_posture_non_compliant = 90

abbrev pub weight_dlp_high : ℕ
weight_dlp_high = 50

abbrev pub weight_dlp_medium : ℕ
weight_dlp_medium = 25

abbrev pub weight_dlp_low : ℕ
weight_dlp_low = 10

-- The weights that the two observers pass are not negative; no expiry is the zero time.
pub record Factor : Type 0 where
  pub id : Bytes
  pub weight : ℕ
  pub expire_at : Option ℕ

pub record Assessment : Type 0 where
  pub score : ℕ
  pub level : Bytes
  pub factors : List Factor
  pub computed_at : ℕ

abbrev pub event_factor_ttl : ℕ
event_factor_ttl = 30 * 60 * 1000000000

pub record SubjectKey : Type 0 where
  pub tenant : Bytes
  pub subject : Bytes

unfoldable pub same_subject : SubjectKey → SubjectKey → Bool
same_subject a b = beq a.tenant b.tenant && beq a.subject b.subject

same_pair : (a b : SubjectKey) → a.tenant ≡ b.tenant → a.subject ≡ b.subject → a ≡ b
same_pair a b h k = cc

pub same_subject_iff : (a b : SubjectKey) → (same_subject a b ≡ true) ↔ (a ≡ b)
unfolding same_subject
same_subject_iff a b =
    ground (arith, beq_iff a.tenant b.tenant, beq_iff a.subject b.subject, same_pair a b)

instance abbrev pub subject_key : Key SubjectKey
subject_key = record { same = same_subject; same_iff = same_subject_iff }

pub record SubjectState : Type 0 where
  pub factors : Dict Bytes Factor
  pub last_jti : Bytes
  pub fired_jti : Bytes

abbrev pub Service : Type 0
Service = Dict SubjectKey SubjectState

unfoldable pub new_service : Service
new_service = []

-- !f.ExpireAt.IsZero() && now.After(f.ExpireAt)
unfoldable pub is_expired : ℕ → Factor → Bool
is_expired now f = elim f.expire_at [ none ↦ false | some t ↦ ltb t now ]

-- The map after the expired factors are deleted from it.
unfoldable pub live : ℕ → Dict Bytes Factor → Dict Bytes Factor
live now [] = []
live now ((k, f) ∷ m) = let rest = live now m in if is_expired now f then rest else (k, f) ∷ rest

unfoldable pub total : Dict Bytes Factor → ℕ
total [] = 0
total ((k, f) ∷ m) = f.weight + total m

abbrev values : Dict Bytes Factor → List Factor
values [] = []
values ((k, f) ∷ m) = f ∷ values m

-- assessLocked. A sum of weights is not negative, so the lower cap does nothing.
unfoldable pub assess_locked : ℕ → SubjectState → SubjectState × Assessment
assess_locked now st =
    let factors = live now st.factors in
    let score = if ltb 100 (total factors) then 100 else total factors in
    (
      record st { factors = factors },
      record { score = score; level = level_of score; factors = values factors; computed_at = now },
    )

abbrev state_of : SubjectKey → Service → SubjectState
state_of k s = elim (get k s) [
  | none ↦ record { factors = []; last_jti = []; fired_jti = [] }
  | some st ↦ st
]

-- The state of a subject once the factor is added, replaced or cleared.
unfoldable pub with_factor : ℕ → Bytes → Factor → Bool → SubjectState → SubjectState
with_factor now jti f sticky st =
    let g = if not sticky then record f { expire_at = some (now + event_factor_ttl) } else f in
    record {
      factors = if ltb 0 f.weight then put f.id g st.factors else del f.id st.factors;
      last_jti = if not (is_empty jti) then jti else st.last_jti;
      fired_jti = st.fired_jti;
    }

-- Whether the mutation callback is due, and the state that remembers it.
unfoldable pub settle : SubjectState → Assessment → SubjectState × Bool
settle st a =
    if beq a.level risk_critical
    then (if not (beq st.fired_jti st.last_jti)
        then (record st { fired_jti = st.last_jti }, true)
        else (st, false))
    else (record st { fired_jti = [] }, false)

-- One observation of a subject: its state, the assessment, and the session to revoke.
unfoldable pub observe_subject :
    ℕ → ℕ → Bytes → Factor → Bool → SubjectState → SubjectState × Assessment × Option Bytes
observe_subject now later jti f sticky st =
    let (assessed, a) = assess_locked later (with_factor now jti f sticky st) in
    let (settled, fire) = settle assessed a in
    (settled, a, if fire then some assessed.last_jti else none)

-- observe: `some jti` is a call of the mutation callback, where one is set.
unfoldable pub observe :
    ℕ → ℕ → Service → Bytes → Bytes → Bytes → Factor → Bool → Service × Assessment × Option Bytes
observe now later s tenant subject jti f sticky =
    let k : SubjectKey = record { tenant = tenant; subject = subject } in
    let (st, a, fired) = observe_subject now later jti f sticky (state_of k s) in
    (put k st s, a, fired)

-- Assess
unfoldable pub assess : ℕ → Service → Bytes → Bytes → Service × Assessment
assess now s tenant subject =
    let k : SubjectKey = record { tenant = tenant; subject = subject } in
    elim (get k s) [
      | none ↦ (s, record { score = 0; level = risk_low; factors = []; computed_at = now })
      | some st ↦ let (st', a) = assess_locked now st in (put k st' s, a)
    ]

unfoldable pub observe_posture :
    ℕ → ℕ → Service → Bytes → Bytes → Bytes → Bytes → Service × Assessment × Option Bytes
observe_posture now later s tenant subject jti posture =
    let w = if beq posture (bytes "compliant") then 0 else weight_posture_non_compliant in
    observe now later s tenant subject jti
      (record { id = bytes "posture"; weight = w; expire_at = none }) true

-- Report, of the rule name and the severity of a finding.
unfoldable pub report :
    ℕ → ℕ → Service → Bytes → Bytes → Bytes → Bytes → Bytes → Service × Assessment × Option Bytes
report now later s tenant subject jti rule_name severity =
    let w =
      if beq severity (bytes "high")
      then weight_dlp_high
      else if beq severity (bytes "low")
      then weight_dlp_low
      else weight_dlp_medium in
    observe now later s tenant subject jti
      (record { id = bytes "dlp:" ++ rule_name; weight = w; expire_at = none }) false
