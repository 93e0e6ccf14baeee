-- ===== src/Swg/Tests.antt =====
-- A list that blocks one host and one prefix of paths.
use sase.Prelude.{◌≡◌, ◌↔◌, false, List, [], ◌∷◌, Any}
use sase.Prelude.Bytes.{bytes}
use sase.Swg.{Rule, Request, evaluate}
use sase.Swg.Verdict.{Blocks, evaluate-block_iff}

abbrev two_rules : List Rule
two_rules =
    record {
      id = bytes "1";
      kind = bytes "host";
      pattern_text = bytes "evil.test";
      action = bytes "block";
    }
    ∷ record {
      id = bytes "2";
      kind = bytes "path_prefix";
      pattern_text = bytes "/admin";
      action = bytes "block";
    }
    ∷ []

abbrev admin_request : Request
admin_request = record { host = bytes "good.test"; path = bytes "/admin/users" }

evaluate-block_iff_example :
    ((evaluate two_rules admin_request).allow ≡ false) ↔ Any (Blocks admin_request) two_rules
evaluate-block_iff_example = evaluate-block_iff two_rules admin_request
