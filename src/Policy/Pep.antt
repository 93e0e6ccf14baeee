-- ===== src/Policy/Pep.antt =====
-- internal/pop/pep/pep.go: the verdict on one request. The claims are those fields of cred.Claims
-- (internal/cred) that the decision reads.
pub mod FirstMatch
mod Covering
pub mod Verdict
mod Tests
use sase.Prelude.{
  Bool, true, false, not, ◌&&◌, ◌||◌, List, [], ◌∷◌, Option, none, some, if◌then◌else◌, is_empty,
}
use sase.Prelude.Bytes.{Bytes, bytes, beq}
use sase.Policy.Xdsv1.{effect_deny, risk_at_least, L7Rule, PolicyBundle}

pub record Claims : Type 0 where
  pub subject : Bytes
  pub groups : List Bytes
  pub posture : Bytes
  pub risk_level : Bytes

unfoldable pub has_group : List Bytes → Bytes → Bool
has_group [] v = false
has_group (g ∷ gs) v = beq g v || has_group gs v

unfoldable pub subject_match : L7Rule → Claims → Bool
unfolding has_group
subject_match r claims =
    if beq r.subject_kind (bytes "user")
    then beq claims.subject r.subject_value
    else if beq r.subject_kind (bytes "group")
    then has_group claims.groups r.subject_value
    else if beq r.subject_kind (bytes "posture")
    then beq claims.posture r.subject_value
    else if beq r.subject_kind (bytes "risk_gte")
    then risk_at_least claims.risk_level r.subject_value
    else false

-- The loop over the bundle's rules.
unfoldable pub decide_rules : List L7Rule → Claims → Bytes → Bytes → Bytes
decide_rules [] claims resource action = effect_deny
decide_rules (r ∷ rs) claims resource action =
    let rest = decide_rules rs claims resource action in
    if not (beq r.resource resource)
    then rest
    else if not (is_empty r.action) && not (is_empty action) && not (beq r.action action)
    then rest
    else if not (subject_match r claims)
    then rest
    else r.effect

unfoldable pub decide : Option PolicyBundle → Claims → Bytes → Bytes → Bytes
decide none claims resource action = effect_deny
decide (some bundle) claims resource action = decide_rules bundle.l7_rules claims resource action
