-- ===== src/Policy/Compiler/Tests.antt =====
-- Two policies, compiled in either order, with the count of rules for a hash.
use mathlib.Core.List.{Perm, Permᴰ}
use sase.Prelude.{◌≡◌, ◌≢◌, refl, ap, arith, List, [], ◌∷◌, Option, none, some, All, map, length}
use sase.Prelude.Bytes.{Bytes, bytes, beq}
use sase.Prelude.Dict.{get, put}
use sase.Prelude.Int.{pos}
use sase.Prelude.Sort.{IsSorted, stable_sort, insert}
use sase.Prelude.Result.{ok}
use sase.Policy.Xdsv1.{L7Rule, valid_risk_level}
use sase.Policy.Compiler
use sase.Policy.Compiler.{Policy, compile, rule_of, rule_less, key_of}
use sase.Policy.Compiler.Checks.{IsValid, Consistent}
use sase.Policy.Compiler.Correct.{bundle_of, compile-legal, compile-ok, compile-perm}

abbrev pub allow_staff : Policy
allow_staff = record {
  id = bytes "p1";
  name = bytes "staff";
  priority = pos 20;
  subject_kind = bytes "group";
  subject_value = bytes "staff";
  resource = bytes "wiki";
  action = bytes "connect";
  effect = bytes "allow";
}

abbrev pub deny_risky : Policy
deny_risky = record {
  id = bytes "p2";
  name = bytes "risk";
  priority = pos 10;
  subject_kind = bytes "risk_gte";
  subject_value = bytes "high";
  resource = bytes "wiki";
  action = bytes "connect";
  effect = bytes "deny";
}

abbrev pub two_policies : List Policy
two_policies = allow_staff ∷ deny_risky ∷ []

abbrev pub count_hash : List L7Rule → Option Bytes
count_hash rules = some (length rules ∷ [])

allow_staff-IsValid : IsValid none allow_staff
unfolding Compiler.valid_effect Compiler.valid_subject_kind Compiler.registered beq
allow_staff-IsValid = record {
  effect_listed = refl;
  kind_listed = refl;
  risk_listed = λ e. ground arith;
  resource_given = λ e. ground arith;
  action_given = λ e. ground arith;
  app_registered = refl;
}

deny_risky-IsValid : IsValid none deny_risky
unfolding Compiler.valid_effect Compiler.valid_subject_kind Compiler.registered beq valid_risk_level
    get
deny_risky-IsValid = record {
  effect_listed = refl;
  kind_listed = refl;
  risk_listed = λ e. refl;
  resource_given = λ e. ground arith;
  action_given = λ e. ground arith;
  app_registered = refl;
}

two_policies-IsValid : All (IsValid none) two_policies
two_policies-IsValid = (allow_staff-IsValid, (deny_risky-IsValid, tt))

keys_differ : key_of allow_staff ≢ key_of deny_risky
unfolding key_of
keys_differ e = let k = ap (λ x. x.sk) e in ground arith

two_policies-Consistent : Consistent two_policies
two_policies-Consistent = ((λ e. absurd (keys_differ e), tt), (tt, tt))

hashed : count_hash (bundle_of (bytes "acme") two_policies (2 ∷ [])).l7_rules ≡ some (2 ∷ [])
unfolding Compiler.sort_rules stable_sort insert rule_less rule_of beq
hashed = refl

compile-legal_example :
    compile count_hash (bytes "acme") two_policies none
    ≡ ok (bundle_of (bytes "acme") two_policies (2 ∷ []))
compile-legal_example =
    compile-legal count_hash (bytes "acme") none two_policies (2 ∷ []) two_policies-IsValid
      two_policies-Consistent hashed

pub compiled :
    compile count_hash (bytes "acme") two_policies none
    ≡ ok (bundle_of (bytes "acme") two_policies (2 ∷ []))
unfolding compile Compiler.check_all Compiler.check_policy Compiler.valid_effect
    Compiler.valid_subject_kind Compiler.registered beq valid_risk_level get Compiler.find_conflict
    key_of put Compiler.same_key Compiler.sort_rules stable_sort insert rule_less rule_of
compiled = refl

compile-ok_example :
    All (IsValid none) two_policies
    × Consistent two_policies
    × (count_hash (bundle_of (bytes "acme") two_policies (2 ∷ [])).l7_rules ≡ some (2 ∷ []))
    × (bundle_of (bytes "acme") two_policies (2 ∷ [])
        ≡ bundle_of (bytes "acme") two_policies (2 ∷ []))
    × IsSorted rule_less (bundle_of (bytes "acme") two_policies (2 ∷ [])).l7_rules
    × Perm (bundle_of (bytes "acme") two_policies (2 ∷ [])).l7_rules (map rule_of two_policies)
compile-ok_example =
    compile-ok count_hash (bytes "acme") none two_policies
      (bundle_of (bytes "acme") two_policies (2 ∷ [])) compiled

compile-perm_example :
    compile count_hash (bytes "acme") (deny_risky ∷ allow_staff ∷ []) none
    ≡ ok (bundle_of (bytes "acme") two_policies (2 ∷ []))
compile-perm_example =
    compile-perm count_hash (bytes "acme") none two_policies (deny_risky ∷ allow_staff ∷ [])
      (bundle_of (bytes "acme") two_policies (2 ∷ [])) (Permᴰ.swap refl refl) compiled
