-- ===== src/Swg.antt =====
-- internal/swg/engine.go and internal/pop/swg_store.go: the web gateway's block rules.
pub mod Verdict
mod Tests
use sase.Prelude.{Bool, true, false, not, List, [], ◌∷◌, ◌++◌, Option, none, some, if◌then◌else◌}
use sase.Prelude.Bytes.{Bytes, bytes, beq, has_prefix}
use sase.Prelude.Dict.{Dict, get, put, bytes_key}

abbrev pub kind_host : Bytes
kind_host = bytes "host"

abbrev pub kind_path_prefix : Bytes
kind_path_prefix = bytes "path_prefix"

abbrev pub action_block : Bytes
action_block = bytes "block"

pub record Rule : Type 0 where
  pub id : Bytes
  pub kind : Bytes
  pub pattern_text : Bytes
  pub action : Bytes

pub record Request : Type 0 where
  pub host : Bytes
  pub path : Bytes

pub record Decision : Type 0 where
  pub allow : Bool
  pub reason : Bytes

-- A block with its reason.
abbrev blocked : Bytes → Bytes → Decision
blocked why pattern_text = record { allow = false; reason = why ++ pattern_text }

unfoldable pub evaluate : List Rule → Request → Decision
evaluate [] req = record { allow = true; reason = [] }
evaluate (r ∷ rules) req =
    let rest = evaluate rules req in
    if not (beq r.action action_block)
    then rest
    else if beq r.kind kind_host
    then (if beq req.host r.pattern_text
        then blocked (bytes "host blocked: ") r.pattern_text
        else rest)
    else if beq r.kind kind_path_prefix
    then (if has_prefix req.path r.pattern_text
        then blocked (bytes "path blocked: ") r.pattern_text
        else rest)
    else rest

-- SWGStore: each tenant's rules; a missing tenant has the nil slice.
abbrev pub SwgStore : Type 0
SwgStore = Dict Bytes (List Rule)

unfoldable pub new_swg_store : SwgStore
new_swg_store = []

unfoldable pub set_rules : SwgStore → Bytes → List Rule → SwgStore
set_rules s tenant rules = put tenant rules s

unfoldable pub get_rules : SwgStore → Bytes → List Rule
get_rules s tenant = elim (get tenant s) [ none ↦ [] | some rules ↦ rules ]
