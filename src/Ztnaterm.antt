-- ===== src/Ztnaterm.antt =====
-- internal/pop/ztnaterm/appresolver.go: a tenant's destinations and the applications behind them.
-- net.ParseCIDR and strings.TrimSpace are parameters, of which the code relies on nothing but
-- their being functions of the text.
pub mod Resolve
mod Tests
use sase.Prelude.{
  ℕ, ◌+◌, ◌*◌, ◌-◌, Bool, true, false, not, ◌&&◌, ◌||◌, List, [], ◌∷◌, ◌++◌, Option, none, some,
  if◌then◌else◌, is_empty, length, drop, take, ◌==◌, ltb, leb,
}
use sase.Prelude.Bytes.{Bytes, bytes, beq, has_suffix, contains}
use sase.Prelude.Dict.{Dict, get, put, bytes_key}
use sase.Prelude.Int.{ℤ, pos, negsuc}
use sase.Prelude.Result.{Result, ok, err}
use sase.Net.{IpNet, net_contains}

pub record AppRule : Type 0 where
  pub cidr : IpNet
  pub dst_port : ℕ  -- uint16; 0 is any
  pub app_key : Bytes
  pub connector : Bool

abbrev pub AppResolver : Type 0
AppResolver = Dict Bytes (List AppRule)

unfoldable pub new_app_resolver : AppResolver
new_app_resolver = []

pub data SpecError : Type 0 where
  missing_fields bad_cidr bad_spec bad_port : SpecError

-- byTenant[tenant]
unfoldable pub rules_of : AppResolver → Bytes → List AppRule
rules_of ar tenant = elim (get tenant ar) [ none ↦ [] | some rules ↦ rules ]

unfoldable pub append_rule : AppResolver → Bytes → AppRule → AppResolver
append_rule ar tenant rule = put tenant (rules_of ar tenant ++ rule ∷ []) ar

-- The loop's body, as a test.
unfoldable pub hits : AppRule → Bytes → ℕ → Bool
hits r dst dst_port =
    if not (net_contains r.cidr dst)
    then false
    else if not (r.dst_port == 0) && not (r.dst_port == dst_port)
    then false
    else true

unfoldable pub first_hit : List AppRule → Bytes → ℕ → Option AppRule
first_hit [] dst dst_port = none
first_hit (r ∷ rs) dst dst_port =
    let rest = first_hit rs dst dst_port in if hits r dst dst_port then some r else rest

unfoldable pub resolve_rule : AppResolver → Bytes → Bytes → ℕ → Option AppRule
resolve_rule ar tenant dst dst_port = first_hit (rules_of ar tenant) dst dst_port

-- Resolve
unfoldable pub resolve : AppResolver → Bytes → Bytes → ℕ → Option Bytes
resolve ar tenant dst dst_port = elim (resolve_rule ar tenant dst dst_port) [
  | none ↦ none
  | some r ↦ some r.app_key
]

-- strings.Split by one byte.
unfoldable pub split_on : ℕ → Bytes → List Bytes
split_on sep [] = [] ∷ []
split_on sep (c ∷ s) = elim (split_on sep s) [
  | [] ↦ []
  | w ∷ ws ↦ if c == sep then [] ∷ w ∷ ws else (c ∷ w) ∷ ws
]

-- strings.LastIndex of one byte: what comes before it, and what after it.
unfoldable pub cut_last : ℕ → Bytes → Option (Bytes × Bytes)
cut_last sep [] = none
cut_last sep (c ∷ s) = elim (cut_last sep s) [
  | some (before, after) ↦ some (c ∷ before, after)
  | none ↦ if c == sep then some ([], s) else none
]

abbrev has_byte : ℕ → Bytes → Bool
has_byte sep [] = false
has_byte sep (c ∷ s) = c == sep || has_byte sep s

-- The digits of a decimal text, on top of `acc`.
unfoldable pub digits_value : ℕ → Bytes → Option ℕ
digits_value acc [] = some acc
digits_value acc (c ∷ s) =
    let rest = digits_value (acc * 10 + (c - 48)) s in if leb 48 c && leb c 57 then rest else none

abbrev unsigned_value : Bytes → Option ℕ
unsigned_value s = if is_empty s then none else digits_value 0 s

-- strconv.Atoi without its overflow, which is out of the range that parsePort accepts. The values
-- of a text with a minus sign are below 1 all the same, so they are left out here.
unfoldable pub atoi_positive : Bytes → Option ℕ
atoi_positive [] = none
atoi_positive (c ∷ s) = if c == 43 then unsigned_value s else unsigned_value (c ∷ s)

-- parsePort
unfoldable pub parse_port : Bytes → Option ℕ
parse_port s = elim (atoi_positive s) [
  | none ↦ none
  | some p ↦ if ltb p 1 || ltb 65535 p then none else some p
]

module _ (parse_cidr : Bytes → Option IpNet) where
  unfoldable pub add_rule :
      AppResolver → Bytes → Bytes → ℕ → Bytes → Bool → Result SpecError AppResolver
  add_rule ar tenant cidr_str dst_port app_key connector =
      if is_empty tenant || is_empty app_key
      then err missing_fields
      else elim (parse_cidr cidr_str) [
        | none ↦ err bad_cidr
        | some n ↦ ok (
            append_rule ar tenant
              (record { cidr = n; dst_port = dst_port; app_key = app_key; connector = connector }))
      ]

  -- Add
  unfoldable pub add : AppResolver → Bytes → Bytes → ℕ → Bytes → Result SpecError AppResolver
  add ar tenant cidr_str dst_port app_key = add_rule ar tenant cidr_str dst_port app_key false

  module _ (trim_space : Bytes → Bytes) where
    -- The application and whether it is behind a connector: strings.TrimSuffix of ten bytes.
    unfoldable pub app_field : Bytes → Bytes × Bool
    app_field field =
        if has_suffix field (bytes "@connector")
        then (trim_space (take (length field - 10) field), true)
        else (field, false)

    -- The network and the port of a destination, the port only behind its one colon.
    unfoldable pub destination : Bytes → Result SpecError (Bytes × ℕ)
    destination dest = elim (cut_last 58 dest) [
      | none ↦ ok (dest, 0)
      | some (before, after) ↦
          let port = parse_port after in
          if has_byte 58 before
          then ok (dest, 0)
          else elim port [ none ↦ err bad_port | some p ↦ ok (before, p) ]
    ]

    unfoldable pub add_spec : AppResolver → Bytes → Result SpecError AppResolver
    add_spec ar spec = elim (split_on 61 spec) [
      | tenant ∷ dest ∷ app ∷ [] ↦
          let (app_key, connector) = app_field (trim_space app) in
          elim (destination (trim_space dest)) [
            | err e ↦ err e
            | ok (cidr_str, port) ↦ add_rule ar (trim_space tenant) cidr_str port app_key connector
          ]
      | _ ↦ err bad_spec
    ]
