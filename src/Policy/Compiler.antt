-- ===== src/Policy/Compiler.antt =====
-- internal/policy/compiler/compiler.go: a tenant's policies compiled to a bundle. The hash of the
-- rules (json.Marshal and SHA-256 of the standard library) is a parameter; `none` is its error.
pub mod Checks
pub mod Order
pub mod Correct
pub mod Tests
use sase.Prelude.{
  ℕ, Bool, true, false, not, ◌&&◌, ◌||◌, List, [], ◌∷◌, Option, none, some, if◌then◌else◌, is_empty,
  ◌≡◌, ◌↔◌, refl, arith,
}
use sase.Prelude.Bytes.{Bytes, bytes, beq, beq_iff, blt}
use sase.Prelude.Dict.{Dict, Key, get, put, bytes_key}
use sase.Prelude.Int.{ℤ, eq_int, lt_int}
use sase.Prelude.Sort.{stable_sort}
use sase.Prelude.Result.{Result, ok, err}
use sase.Policy.Xdsv1.{
  effect_allow, effect_deny, effect_inspect, valid_risk_level, L7Rule, PolicyBundle,
}

pub record Policy : Type 0 where
  pub id : Bytes
  pub name : Bytes
  pub priority : ℤ
  pub subject_kind : Bytes
  pub subject_value : Bytes
  pub resource : Bytes
  pub action : Bytes
  pub effect : Bytes

unfoldable pub valid_effect : Bytes → Bool
valid_effect s = beq s effect_allow || beq s effect_deny || beq s effect_inspect

unfoldable pub valid_subject_kind : Bytes → Bool
valid_subject_kind s =
    beq s (bytes "user")
    || beq s (bytes "group")
    || beq s (bytes "posture")
    || beq s (bytes "risk_gte")

-- The texts of the errors, before formatting.
pub data Msg : Type 0 where
  bad_effect bad_subject_kind bad_risk_level unknown_app : Bytes → Msg
  resource_and_action_required : Msg
  effects_conflict : Bytes → Bytes → Msg

pub data CompileError : Type 0 where
  compile_error : Bytes → Bytes → Msg → CompileError
  hash_error : CompileError

-- knownApps[resource]
abbrev known : Dict Bytes Bool → Bytes → Bool
known apps resource = elim (get resource apps) [ none ↦ false | some b ↦ b ]

-- The nil map skips the check.
unfoldable pub registered : Option (Dict Bytes Bool) → Bytes → Bool
registered none resource = true
registered (some apps) resource = known apps resource

unfoldable pub rule_of : Policy → L7Rule
rule_of p = record {
  priority = p.priority;
  subject_kind = p.subject_kind;
  subject_value = p.subject_value;
  resource = p.resource;
  action = p.action;
  effect = p.effect;
}

-- The checks of one policy, in the order of the loop's body.
unfoldable pub check_policy : Option (Dict Bytes Bool) → Policy → Result CompileError L7Rule
check_policy apps p =
    if not (valid_effect p.effect)
    then err (compile_error p.id (bytes "effect") (bad_effect p.effect))
    else if not (valid_subject_kind p.subject_kind)
    then err (compile_error p.id (bytes "subject_kind") (bad_subject_kind p.subject_kind))
    else if beq p.subject_kind (bytes "risk_gte") && not (valid_risk_level p.subject_value)
    then err (compile_error p.id (bytes "subject_value") (bad_risk_level p.subject_value))
    else if is_empty p.resource || is_empty p.action
    then err (compile_error p.id (bytes "resource/action") resource_and_action_required)
    else if not (registered apps p.resource)
    then err (compile_error p.id (bytes "resource") (unknown_app p.resource))
    else ok (rule_of p)

unfoldable pub check_all :
    Option (Dict Bytes Bool) → List Policy → Result CompileError (List L7Rule)
check_all apps [] = ok []
check_all apps (p ∷ ps) = elim (check_policy apps p) [
  | err e ↦ err e
  | ok r ↦ elim (check_all apps ps) [ err e ↦ err e | ok rs ↦ ok (r ∷ rs) ]
]

-- matchKey
pub record MatchKey : Type 0 where
  pub sk : Bytes
  pub sv : Bytes
  pub res : Bytes
  pub act : Bytes

unfoldable pub same_key : MatchKey → MatchKey → Bool
same_key a b = beq a.sk b.sk && beq a.sv b.sv && beq a.res b.res && beq a.act b.act

unfoldable pub key_of : Policy → MatchKey
key_of p = record { sk = p.subject_kind; sv = p.subject_value; res = p.resource; act = p.action }

same_fields : (a b : MatchKey) → a.sk ≡ b.sk → a.sv ≡ b.sv → a.res ≡ b.res → a.act ≡ b.act → a ≡ b
same_fields a b h i j k = cc

pub same_key_iff : (a b : MatchKey) → (same_key a b ≡ true) ↔ (a ≡ b)
unfolding same_key
same_key_iff a b = ground (
  arith,
  beq_iff a.sk b.sk,
  beq_iff a.sv b.sv,
  beq_iff a.res b.res,
  beq_iff a.act b.act,
  same_fields a b,
)

instance abbrev pub match_key : Key MatchKey
match_key = record { same = same_key; same_iff = same_key_iff }

-- The loop over the rules, which come from the policies one by one.
unfoldable pub find_conflict : Dict MatchKey Bytes → List Policy → Option CompileError
find_conflict seen [] = none
find_conflict seen (p ∷ ps) =
    let rest = find_conflict (put (key_of p) p.effect seen) ps in
    elim (get (key_of p) seen) [
      | none ↦ rest
      | some prev ↦
          if not (beq prev p.effect)
          then some (compile_error p.id (bytes "effect") (effects_conflict prev p.effect))
          else rest
    ]

unfoldable pub rule_less : L7Rule → L7Rule → Bool
rule_less a b =
    if not (eq_int a.priority b.priority)
    then lt_int a.priority b.priority
    else if not (beq a.resource b.resource)
    then blt a.resource b.resource
    else if not (beq a.subject_kind b.subject_kind)
    then blt a.subject_kind b.subject_kind
    else if not (beq a.subject_value b.subject_value)
    then blt a.subject_value b.subject_value
    else if not (beq a.action b.action)
    then blt a.action b.action
    else blt a.effect b.effect

unfoldable pub sort_rules : List L7Rule → List L7Rule
sort_rules rules = stable_sort rule_less rules

unfoldable pub compile :
    (List L7Rule → Option Bytes)
    → Bytes
    → List Policy
    → Option (Dict Bytes Bool)
    → Result CompileError PolicyBundle
compile hash tenant_id policies known_apps = elim (check_all known_apps policies) [
  | err e ↦ err e
  | ok rules ↦ elim (find_conflict [] policies) [
    | some e ↦ err e
    | none ↦
        let sorted = sort_rules rules in
        elim (hash sorted) [
          | none ↦ err hash_error
          | some h ↦
              ok
                (record { tenant_id = tenant_id; version = 0; content_hash = h; l7_rules = sorted })
        ]
  ]
]
