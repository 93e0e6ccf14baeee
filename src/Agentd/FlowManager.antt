-- ===== src/Agentd/FlowManager.antt =====
-- internal/agentd/flowmgr.go: the networks and the domains that the agent takes into the tunnel.
-- net.ParseCIDR, IPNet.String, strings.TrimSpace and strings.ToLower are parameters, of which the
-- code relies on nothing but their being functions. A nil network is `none`.
pub mod Domains
use sase.Prelude.{
  Bool, true, false, not, ◌&&◌, ◌||◌, List, [], ◌∷◌, ◌++◌, Option, none, some, if◌then◌else◌,
  is_empty, take, length, ◌-◌,
}
use sase.Prelude.Bytes.{Bytes, bytes, beq, blt, has_suffix, trim_prefix}
use sase.Prelude.Dict.{Dict, get, put, bytes_key}
use sase.Prelude.Sort.{stable_sort}
use sase.Net.{IpNet, net_contains}

pub record FlowManager : Type 0 where
  pub cidrs : List IpNet
  pub dns_suffix : List Bytes

unfoldable pub new_flow_manager : FlowManager
new_flow_manager = record { cidrs = []; dns_suffix = [] }

-- seen[key]
abbrev pub is_seen : Bytes → Dict Bytes Bool → Bool
is_seen k seen = elim (get k seen) [ none ↦ false | some b ↦ b ]

-- strings.TrimSuffix of a dot.
unfoldable pub trim_dot : Bytes → Bytes
trim_dot s = if has_suffix s (bytes ".") then take (length s - 1) s else s

unfoldable pub any_contains : List IpNet → Bytes → Bool
any_contains [] dst = false
any_contains (c ∷ cs) dst = net_contains c dst || any_contains cs dst

unfoldable pub should_tunnel : FlowManager → Bytes → Bool
should_tunnel m dst = if is_empty dst then false else any_contains m.cidrs dst

-- The test of one suffix.
unfoldable pub under : Bytes → Bytes → Bool
under name suf = beq name suf || has_suffix name (46 ∷ suf)

unfoldable pub any_under : List Bytes → Bytes → Bool
any_under [] name = false
any_under (s ∷ ss) name = under name s || any_under ss name

module _ (show_net : IpNet → Bytes) where
  -- The loop of SetRoutes.
  unfoldable pub dedup_routes : Dict Bytes Bool → List (Option IpNet) → List IpNet
  dedup_routes seen [] = []
  dedup_routes seen (none ∷ cs) = dedup_routes seen cs
  dedup_routes seen (some c ∷ cs) =
      let skipped = dedup_routes seen cs in
      let kept = c ∷ dedup_routes (put (show_net c) true seen) cs in
      if is_empty c.ip || is_empty c.mask
      then skipped
      else if is_seen (show_net c) seen
      then skipped
      else kept

  unfoldable pub set_routes : FlowManager → List (Option IpNet) → FlowManager × List IpNet
  set_routes m cs = let out = dedup_routes [] cs in (record m { cidrs = out }, out)

  module _ (parse_cidr : Bytes → Option IpNet) (trim_space : Bytes → Bytes) where
    unfoldable pub parse_routes : List Bytes → List (Option IpNet) × List Bytes
    parse_routes [] = ([], [])
    parse_routes (spec ∷ specs) =
        let (parsed, rejected) = parse_routes specs in
        let s = trim_space spec in
        if is_empty s then (parsed, rejected) else elim (parse_cidr s) [
          | none ↦ (parsed, s ∷ rejected)
          | some n ↦ (some n ∷ parsed, rejected)
        ]

    -- SetRoutesFromStrings: the manager, the networks taken and the texts rejected.
    unfoldable pub set_routes_from_strings :
        FlowManager → List Bytes → FlowManager × List IpNet × List Bytes
    set_routes_from_strings m specs =
        let (parsed, rejected) = parse_routes specs in
        let (m', out) = set_routes m parsed in (m', out, rejected)

module _ (to_lower trim_space : Bytes → Bytes) where
  unfoldable pub normalize_suffix : Bytes → Bytes
  normalize_suffix s = trim_dot (trim_prefix (to_lower (trim_space s)) (bytes "."))

  -- The loop of SetInternalDomains.
  unfoldable pub dedup_suffixes : Dict Bytes Bool → List Bytes → List Bytes
  dedup_suffixes seen [] = []
  dedup_suffixes seen (x ∷ xs) =
      let s = normalize_suffix x in
      let skipped = dedup_suffixes seen xs in
      let kept = s ∷ dedup_suffixes (put s true seen) xs in
      if is_empty s || is_seen s seen then skipped else kept

  unfoldable pub set_internal_domains : FlowManager → List Bytes → FlowManager
  set_internal_domains m suffixes = record m {
    dns_suffix = stable_sort blt (dedup_suffixes [] suffixes);
  }

  unfoldable pub internal_domain : FlowManager → Bytes → Bool
  internal_domain m raw =
      let name = trim_dot (to_lower (trim_space raw)) in
      if is_empty name then false else any_under m.dns_suffix name
