-- ===== src/Policy/Pep/Tests.antt =====
-- A verdict on the two policies of the compiler's tests.
use sase.Prelude.{◌≡◌, ◌⊎◌, [], ◌∷◌, none, some}
use sase.Prelude.Bytes.{bytes}
use sase.Policy.Compiler.{Policy}
use sase.Policy.Compiler.Correct.{bundle_of}
use sase.Policy.Compiler.Tests.{two_policies, count_hash, compiled}
use sase.Policy.Pep.{Claims, decide}
use sase.Policy.Pep.Verdict.{DeniedByDefault, FirstCovering, decide-compile}

abbrev staff_member : Claims
staff_member = record {
  subject = bytes "ann";
  groups = bytes "staff" ∷ [];
  posture = bytes "compliant";
  risk_level = bytes "low";
}

decide-compile_example :
    let bundle = bundle_of (bytes "acme") two_policies (2 ∷ []) in
    DeniedByDefault staff_member (bytes "wiki") (bytes "connect") two_policies bundle
    ⊎ ((p : Policy) × FirstCovering staff_member (bytes "wiki") (bytes "connect") two_policies p
        × (decide (some bundle) staff_member (bytes "wiki") (bytes "connect") ≡ p.effect))
decide-compile_example =
    decide-compile staff_member (bytes "wiki") (bytes "connect") count_hash (bytes "acme") none
      two_policies (bundle_of (bytes "acme") two_policies (2 ∷ [])) compiled
