-- ===== src/Ztnaterm/Resolve.antt =====
-- Resolution: a tenant's rules in the order of their registration, and no other tenant's.
use sase.Prelude.{ℕ, ◌≡◌, refl, arith, List, [], ◌∷◌, ◌++◌, Option, none, some, if◌then◌else◌}
use sase.Prelude.Bytes.{Bytes, beq}
use sase.Prelude.Dict.{get-put, bytes_key}
use sase.Ztnaterm.{AppRule, AppResolver, rules_of, append_rule, hits, first_hit, resolve_rule}

abbrev pub or_else : Option AppRule → Option AppRule → Option AppRule
or_else none o = o
or_else (some r) o = some r

first_hit-append :
    (rs : List AppRule) (r : AppRule) (dst : Bytes) (port : ℕ)
    → first_hit (rs ++ r ∷ []) dst port
      ≡ or_else (first_hit rs dst port) (if hits r dst port then some r else none)
unfolding first_hit
first_hit-append [] r dst port = refl
first_hit-append (x ∷ rs) r dst port = ground (arith, first_hit-append rs r dst port)

rules_of-append_rule :
    (ar : AppResolver) (tenant other : Bytes) (rule : AppRule)
    → rules_of (append_rule ar tenant rule) other
      ≡ (if beq tenant other then rules_of ar tenant ++ rule ∷ [] else rules_of ar other)
unfolding rules_of append_rule
rules_of-append_rule ar tenant other rule =
    ground (arith, get-put tenant other (rules_of ar tenant ++ rule ∷ []) ar)

-- A registered rule is tried last by its tenant, and changes what no other tenant resolves.
pub resolve_rule-append_rule :
    (ar : AppResolver) (tenant other : Bytes) (rule : AppRule) (dst : Bytes) (port : ℕ)
    → resolve_rule (append_rule ar tenant rule) other dst port ≡ (
        if beq tenant other
        then or_else
            (resolve_rule ar tenant dst port)
            (if hits rule dst port then some rule else none)
        else resolve_rule ar other dst port)
unfolding resolve_rule
resolve_rule-append_rule ar tenant other rule dst port = ground (
  arith,
  rules_of-append_rule ar tenant other rule,
  first_hit-append (rules_of ar tenant) rule dst port,
)
