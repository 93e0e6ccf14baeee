-- ===== src/Dlp.antt =====
-- internal/dlp/engine.go and internal/pop/dlp_store.go: data-loss rules, their compilation and the
-- scan of a piece of content. Package regexp is a parameter: Compile, and MatchString of its result.
pub mod Scan
mod Tests
use sase.Prelude.{
  ℕ, Bool, true, false, not, ◌&&◌, ◌||◌, List, [], ◌∷◌, ◌++◌, map, length, Option, none, some,
  if◌then◌else◌,
}
use sase.Prelude.Bytes.{Bytes, bytes, beq, contains}
use sase.Prelude.Dict.{Dict, get, put, bytes_key}

abbrev pub match_keyword : Bytes
match_keyword = bytes "keyword"

abbrev pub match_regex : Bytes
match_regex = bytes "regex"

abbrev pub action_block : Bytes
action_block = bytes "block"

abbrev pub severity_low : Bytes
severity_low = bytes "low"

abbrev pub severity_medium : Bytes
severity_medium = bytes "medium"

abbrev pub severity_high : Bytes
severity_high = bytes "high"

pub record Rule : Type 0 where
  pub id : Bytes
  pub name : Bytes
  pub match_type : Bytes
  pub pattern_text : Bytes
  pub action : Bytes
  pub severity : Bytes

pub record Finding : Type 0 where
  pub rule_name : Bytes
  pub severity : Bytes
  pub action : Bytes

-- Result of the source.
pub record ScanResult : Type 0 where
  pub block : Bool
  pub findings : List Finding

-- Package regexp: what Compile returns, and MatchString.
pub record Regexp : Type 1 where
  pub Compiled : Type 0
  pub compile_regexp : Bytes → Option Compiled
  pub match_string : Compiled → Bytes → Bool

module _ (rx : Regexp) where
  open rx use {Compiled, compile_regexp, match_string}

  -- `none` for `re` is the nil pointer.
  pub record CompiledRule : Type 0 where
    pub name : Bytes
    pub severity : Bytes
    pub action : Bytes
    pub match_type : Bytes
    pub keyword : Bytes
    pub re : Option Compiled

  -- The field `rules` of CompiledRuleSet.
  abbrev pub CompiledRuleSet : Type 0
  CompiledRuleSet = List CompiledRule

  unfoldable pub len : CompiledRuleSet → ℕ
  len cs = length cs

  -- The body of Compile's loop.
  unfoldable pub compile_rule : Rule → CompiledRule
  compile_rule r = record {
    name = r.name;
    severity = r.severity;
    action = r.action;
    match_type = r.match_type;
    keyword = if beq r.match_type match_keyword then r.pattern_text else [];
    re =
        if beq r.match_type match_keyword
        then none
        else if beq r.match_type match_regex
        then compile_regexp r.pattern_text
        else none;
  }

  unfoldable pub compile : List Rule → CompiledRuleSet
  compile rules = map compile_rule rules

  abbrev re_match : Option Compiled → Bytes → Bool
  re_match none content = false
  re_match (some re) content = match_string re content

  unfoldable pub matches_compiled : CompiledRule → Bytes → Bool
  matches_compiled cr content =
      if beq cr.match_type match_keyword
      then not (beq cr.keyword []) && contains content cr.keyword
      else if beq cr.match_type match_regex
      then re_match cr.re content
      else false

  -- The loop of EvaluateCompiled, with the result so far.
  unfoldable pub scan_from : ScanResult → CompiledRuleSet → Bytes → ScanResult
  scan_from res [] content = res
  scan_from res (cr ∷ rest) content =
      scan_from
        (if matches_compiled cr content
          then record {
            block = if beq cr.action action_block then true else res.block;
            findings =
                res.findings
                ++ record { rule_name = cr.name; severity = cr.severity; action = cr.action } ∷ [];
          }
          else res)
        rest content

  unfoldable pub evaluate_compiled : CompiledRuleSet → Bytes → ScanResult
  evaluate_compiled cs content = scan_from (record { block = false; findings = [] }) cs content

  unfoldable pub evaluate : List Rule → Bytes → ScanResult
  evaluate rules content = evaluate_compiled (compile rules) content

  -- DLPStore: each tenant's compiled rules; a missing tenant has the zero value.
  abbrev pub DlpStore : Type 0
  DlpStore = Dict Bytes CompiledRuleSet

  unfoldable pub new_dlp_store : DlpStore
  new_dlp_store = []

  unfoldable pub set_rules : DlpStore → Bytes → List Rule → DlpStore
  set_rules s tenant rules = put tenant (compile rules) s

  unfoldable pub get_rules : DlpStore → Bytes → CompiledRuleSet
  get_rules s tenant = elim (get tenant s) [ none ↦ [] | some cs ↦ cs ]
