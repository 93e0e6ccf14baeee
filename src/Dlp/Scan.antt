-- ===== src/Dlp/Scan.antt =====
-- The scan against a direct reading of the rules.
use sase.Prelude.{
  ◌≡◌, refl, ap, ◌∙◌, inl, inr, Bool, true, false, not, ◌&&◌, ◌||◌, Option, none, some, List, [],
  ◌∷◌, ◌++◌, arith, Bool-cases, if◌then◌else◌,
}
use mathlib.Core.List.{append_assoc, append-nil}
use sase.Prelude.Bytes.{Bytes, beq, contains}
use sase.Prelude.Dict.{get-put, bytes_key}
use sase.Dlp
use sase.Dlp.{Rule, Finding, ScanResult, Regexp}

module _ (rx : Regexp) where
  open rx use {Compiled, compile_regexp, match_string}

  regexp_hits : Option Compiled → Bytes → Bool
  regexp_hits none content = false
  regexp_hits (some re) content = match_string re content

  -- A keyword that is not empty and occurs in the content, or a legal expression that matches it.
  pub matches : Bytes → Rule → Bool
  unfolding regexp_hits
  matches content r =
      (beq r.match_type Dlp.match_keyword
        && (not (beq r.pattern_text []) && contains content r.pattern_text))
      || (beq r.match_type Dlp.match_regex
          && (not (beq r.match_type Dlp.match_keyword)
              && regexp_hits (compile_regexp r.pattern_text) content))

  pub matches_compiled-compile_rule :
      (r : Rule) (content : Bytes)
      → Dlp.matches_compiled rx (Dlp.compile_rule rx r) content ≡ matches content r
  unfolding matches Dlp.matches_compiled Dlp.compile_rule
  matches_compiled-compile_rule r content = ground arith

  -- The findings that the rules call for, in the rules' order.
  pub findings_of : Bytes → List Rule → List Finding
  findings_of content [] = []
  findings_of content (r ∷ rules) =
      let rest = findings_of content rules in
      if matches content r
      then record { rule_name = r.name; severity = r.severity; action = r.action } ∷ rest
      else rest

  -- A block rule matches.
  pub any_block : Bytes → List Rule → Bool
  any_block content [] = false
  any_block content (r ∷ rules) =
      (matches content r && beq r.action Dlp.action_block) || any_block content rules

  -- One rule of the loop, read off the rule's text.
  abbrev step : Bytes → ScanResult → Rule → ScanResult
  step content res r =
      if matches content r
      then record {
        block = if beq r.action Dlp.action_block then true else res.block;
        findings =
            res.findings
            ++ record { rule_name = r.name; severity = r.severity; action = r.action } ∷ [];
      }
      else res

  scan_from-step :
      (res : ScanResult) (r : Rule) (rules : List Rule) (content : Bytes)
      → Dlp.scan_from rx res (Dlp.compile rx (r ∷ rules)) content
        ≡ Dlp.scan_from rx (step content res r) (Dlp.compile rx rules) content
  unfolding Dlp.scan_from Dlp.compile Dlp.compile_rule
  scan_from-step res r rules content =
      ap
        (λ b.
          Dlp.scan_from rx
            (if b
              then record {
                block = if beq r.action Dlp.action_block then true else res.block;
                findings =
                    res.findings
                    ++ record { rule_name = r.name; severity = r.severity; action = r.action } ∷ [];
              }
              else res)
            (Dlp.compile rx rules) content)
        (matches_compiled-compile_rule r content)

  step_block :
      (content : Bytes) (res : ScanResult) (r : Rule) (b : Bool)
      → ((step content res r).block || b)
        ≡ (res.block || ((matches content r && beq r.action Dlp.action_block) || b))
  step_block content res r b = ground arith

  step_findings :
      (content : Bytes) (res : ScanResult) (r : Rule) (rules : List Rule)
      → (step content res r).findings ++ findings_of content rules
        ≡ res.findings ++ findings_of content (r ∷ rules)
  unfolding findings_of
  step_findings content res r rules = elim (Bool-cases (matches content r)) [
    | inl e ↦ rw e (append_assoc res.findings _ (findings_of content rules))
    | inr e ↦ rw e
  ]

  scan_from_lem :
      (res : ScanResult) (rules : List Rule) (content : Bytes)
      → Dlp.scan_from rx res (Dlp.compile rx rules) content ≡ record {
        block = res.block || any_block content rules;
        findings = res.findings ++ findings_of content rules;
      }
  scan_from_lem res [] content =
      unfold Dlp.scan_from Dlp.compile any_block findings_of in
      ground (arith, append-nil res.findings)
  scan_from_lem res (r ∷ rules) content =
      scan_from-step res r rules content ∙ scan_from_lem (step content res r) rules content ∙ (λ i.
        record {
          block =
              (step_block content res r (any_block content rules) ∙ block_cons res r rules content)
                i;
          findings = step_findings content res r rules i;
        })
    where
      block_cons :
          (res : ScanResult) (r : Rule) (rules : List Rule) (content : Bytes)
          → (res.block
              || ((matches content r && beq r.action Dlp.action_block) || any_block content rules))
            ≡ (res.block || any_block content (r ∷ rules))
      block_cons res r rules content = unfold any_block in refl

  -- The scan reports the finding of every rule that matches, in order and once each, and blocks
  -- exactly when one of them is a block rule. An illegal expression matches nothing.
  pub evaluate_lem :
      (rules : List Rule) (content : Bytes)
      → Dlp.evaluate rx rules content
        ≡ record { block = any_block content rules; findings = findings_of content rules }
  unfolding Dlp.evaluate Dlp.evaluate_compiled
  evaluate_lem rules content = scan_from_lem (record { block = false; findings = [] }) rules content

  -- A tenant's stored rules scan as the rules last set for it; other tenants' rules stay.
  pub get_rules-set_rules :
      (s : Dlp.DlpStore rx) (tenant other : Bytes) (rules : List Rule)
      → Dlp.get_rules rx (Dlp.set_rules rx s tenant rules) other
        ≡ (if beq tenant other then Dlp.compile rx rules else Dlp.get_rules rx s other)
  unfolding Dlp.get_rules Dlp.set_rules
  get_rules-set_rules s tenant other rules =
      ground (arith, get-put tenant other (Dlp.compile rx rules) s)
