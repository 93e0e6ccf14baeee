-- ===== src/Policy/Xdsv1.antt =====
-- api/xdsv1/contract.go: effects, risk levels and the compiled rules that reach the enforcement point.
use sase.Prelude.{ℕ, Bool, List, none, some, leb}
use sase.Prelude.Bytes.{Bytes, bytes, beq}
use sase.Prelude.Dict.{Dict, get, bytes_key}
use sase.Prelude.Int.{ℤ}
use mathlib.Core.Bool.{true, false}
use mathlib.Core.List.{[], ◌∷◌}

abbrev pub effect_allow : Bytes
effect_allow = bytes "allow"

abbrev pub effect_deny : Bytes
effect_deny = bytes "deny"

abbrev pub effect_inspect : Bytes
effect_inspect = bytes "inspect"

abbrev pub risk_low : Bytes
risk_low = bytes "low"

abbrev pub risk_medium : Bytes
risk_medium = bytes "medium"

abbrev pub risk_high : Bytes
risk_high = bytes "high"

abbrev pub risk_critical : Bytes
risk_critical = bytes "critical"

abbrev pub risk_rank : Dict Bytes ℕ
risk_rank = (risk_low, 0) ∷ (risk_medium, 1) ∷ (risk_high, 2) ∷ (risk_critical, 3) ∷ []

unfoldable pub valid_risk_level : Bytes → Bool
unfolding get beq
valid_risk_level s = elim (get s risk_rank) [ none ↦ false | some rank ↦ true ]

-- riskRank[s]: a level that is not listed has the zero value.
unfoldable pub rank_of : Bytes → ℕ
unfolding get beq
rank_of s = elim (get s risk_rank) [ none ↦ 0 | some rank ↦ rank ]

unfoldable pub risk_at_least : Bytes → Bytes → Bool
unfolding rank_of
risk_at_least claim_level threshold = leb (rank_of threshold) (rank_of claim_level)

pub record L7Rule : Type 0 where
  pub priority : ℤ
  pub subject_kind : Bytes
  pub subject_value : Bytes
  pub resource : Bytes
  pub action : Bytes
  pub effect : Bytes

pub record PolicyBundle : Type 0 where
  pub tenant_id : Bytes
  pub version : ℕ
  pub content_hash : Bytes
  pub l7_rules : List L7Rule
