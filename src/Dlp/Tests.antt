-- ===== src/Dlp/Tests.antt =====
-- A keyword and an expression, over a matcher of expressions by their text.
use sase.Prelude.{◌≡◌, List, [], ◌∷◌, some}
use sase.Prelude.Bytes.{Bytes, bytes, contains}
use sase.Dlp
use sase.Dlp.{Rule, Regexp}
use sase.Dlp.Scan.{any_block, findings_of, evaluate_lem}

abbrev literal_regexp : Regexp
literal_regexp = record {
  Compiled = Bytes;
  compile_regexp = λ p. some p;
  match_string = λ re content. contains content re;
}

abbrev two_rules : List Rule
two_rules =
    record {
      id = bytes "1";
      name = bytes "token";
      match_type = bytes "keyword";
      pattern_text = bytes "SECRET";
      severity = bytes "high";
      action = bytes "block";
    }
    ∷ record {
      id = bytes "2";
      name = bytes "card";
      match_type = bytes "regex";
      pattern_text = bytes "4111";
      severity = bytes "low";
      action = bytes "alert";
    }
    ∷ []

evaluate_lem_example : Dlp.evaluate literal_regexp two_rules (bytes "a SECRET 4111") ≡ record {
  block = any_block literal_regexp (bytes "a SECRET 4111") two_rules;
  findings = findings_of literal_regexp (bytes "a SECRET 4111") two_rules;
}
evaluate_lem_example = evaluate_lem literal_regexp two_rules (bytes "a SECRET 4111")
