-- ===== src/Dptunnel/Router.antt =====
-- internal/dptunnel/router.go: the relay between the sites of a tenant. A site's entry is named by
-- its tenant and site, which Register keeps unique, where the code holds a pointer to it. Addresses
-- are their String(). The calls of the drop hook are returned, and Handle is one step: its reads
-- and the sessions' calls are not interleaved with those of other workers. Serve is the reading loop
-- over a socket and is left out.
pub mod Routes
pub mod Reach
pub mod Isolation
pub mod Tenants
mod Tests
use sase.Prelude.{
  ℕ, ◌≡◌, ◌↔◌, Bool, true, false, not, ◌&&◌, List, [], ◌∷◌, ◌++◌, Option, none, some, if◌then◌else◌,
  is_empty, ◌==◌, map,
}
use sase.Prelude.Bytes.{Bytes, beq}
use sase.Prelude.Dict.{Dict, get, put, del, bytes_key}
use sase.Prelude.Int.{pos}
use sase.Net.{IpNet, to4, to16, mask_size}
use sase.Dptunnel.Lpm.{Trie, new_trie, insert, longest_prefix}
use sase.Dptunnel.Packet.{Packet5Tuple, parse_5tuple}
use sase.Dptunnel.Frame.{Result, ok, err}
use sase.Dptunnel.Session.{Aead, Session, SealResult, sent, refused, seal, open_datagram}

pub record SiteName : Type 0 where
  pub tenant : Bytes
  pub site : Bytes

pub record SiteEntry : Type 0 where
  pub tenant : Bytes
  pub site : Bytes
  pub keys : Aead
  pub sess : Session
  pub addr : Bytes
  pub cidrs : List IpNet

pub record TenantRoutes : Type 0 where
  pub v4 : Trie SiteName
  pub v6 : Trie SiteName

-- The hook's verdict on a tenant's packet; `none` is no firewall.
pub record Router : Type 0 where
  pub by_src : Dict Bytes SiteName
  pub by_tenant : Dict Bytes (List SiteEntry)
  pub routes : Dict Bytes TenantRoutes
  pub fw : Option (Bytes → Packet5Tuple → Bool)

unfoldable pub new_router : Router
new_router = record { by_src = []; by_tenant = []; routes = []; fw = none }

unfoldable pub set_firewall : Router → (Bytes → Packet5Tuple → Bool) → Router
set_firewall r fw = record r { fw = some fw }

-- byTenant[tenant]
unfoldable pub sites_of : Router → Bytes → List SiteEntry
sites_of r tenant = elim (get tenant r.by_tenant) [ none ↦ [] | some sites ↦ sites ]

unfoldable pub find_site : Bytes → List SiteEntry → Option SiteEntry
find_site site [] = none
find_site site (e ∷ es) = if beq e.site site then some e else find_site site es

unfoldable pub drop_site : Bytes → List SiteEntry → List SiteEntry
drop_site site [] = []
drop_site site (e ∷ es) = let rest = drop_site site es in if beq e.site site then es else e ∷ rest

-- A write through the pointer to a site's entry.
unfoldable pub update_site : Bytes → (SiteEntry → SiteEntry) → List SiteEntry → List SiteEntry
update_site site f [] = []
update_site site f (e ∷ es) =
    let rest = update_site site f es in if beq e.site site then f e ∷ es else e ∷ rest

abbrev pub name_of : SiteEntry → SiteName
name_of e = record { tenant = e.tenant; site = e.site }

abbrev nil_or : Option Bytes → Bytes
nil_or none = []
nil_or (some ip) = ip

-- One network of a site, put in the trie of its mask's length.
unfoldable pub insert_cidr : SiteName → TenantRoutes → IpNet → TenantRoutes
insert_cidr e tr c =
    let (ones, mask_bits) = mask_size c.mask in
    if mask_bits == 32
    then record tr { v4 = insert tr.v4 (nil_or (to4 c.ip)) (pos ones) e }
    else record tr { v6 = insert tr.v6 (to16 c.ip) (pos ones) e }

unfoldable pub insert_cidrs : SiteName → TenantRoutes → List IpNet → TenantRoutes
insert_cidrs e tr [] = tr
insert_cidrs e tr (c ∷ cs) = insert_cidrs e (insert_cidr e tr c) cs

unfoldable pub insert_sites : TenantRoutes → List SiteEntry → TenantRoutes
insert_sites tr [] = tr
insert_sites tr (e ∷ es) = insert_sites (insert_cidrs (name_of e) tr e.cidrs) es

unfoldable pub build_routes : List SiteEntry → TenantRoutes
build_routes sites = insert_sites (record { v4 = new_trie 32; v6 = new_trie 128 }) sites

unfoldable pub rebuild_routes : Router → Bytes → Router
rebuild_routes r tenant =
    let sites = sites_of r tenant in
    if is_empty sites
    then record r { routes = del tenant r.routes }
    else record r { routes = put tenant (build_routes sites) r.routes }

unfoldable pub with_sites : Router → Bytes → List SiteEntry → Router
with_sites r tenant sites = record r { by_tenant = put tenant sites r.by_tenant }

unfoldable pub remove_locked : Router → Bytes → Bytes → Router
remove_locked r tenant site =
    let sites = sites_of r tenant in
    elim (find_site site sites) [
      | none ↦ r
      | some e ↦
          rebuild_routes
            (with_sites (record r { by_src = del e.addr r.by_src }) tenant (drop_site site sites))
            tenant
    ]

-- Register's part after the removal.
unfoldable pub add_entry : Router → SiteEntry → Router
add_entry r e =
    rebuild_routes
      (with_sites (record r { by_src = put e.addr (name_of e) r.by_src }) e.tenant
        (sites_of r e.tenant ++ e ∷ []))
      e.tenant

unfoldable pub register : Router → SiteEntry → Router
register r e = add_entry (remove_locked r e.tenant e.site) e

unfoldable pub deregister : Router → Bytes → Bytes → Router
deregister r tenant site = remove_locked r tenant site

unfoldable pub update_cidrs : Router → Bytes → Bytes → List IpNet → Router × Bool
update_cidrs r tenant site cidrs =
    let sites = sites_of r tenant in
    elim (find_site site sites) [
      | none ↦ (r, false)
      | some e ↦ (
        rebuild_routes
            (with_sites r tenant (update_site site (λ e. record e { cidrs = cidrs }) sites)) tenant,
        true,
      )
    ]

unfoldable pub route_in : TenantRoutes → Bytes → Option SiteName
route_in tr dst = elim (to4 dst) [
  | some ip4 ↦ longest_prefix tr.v4 ip4
  | none ↦ longest_prefix tr.v6 (to16 dst)
]

unfoldable pub route : Router → Bytes → Bytes → Option SiteName
route r tenant dst = elim (get tenant r.routes) [ none ↦ none | some tr ↦ route_in tr dst ]

pub data Drop : Type 0 where
  no_session decrypt_fail parse_fail firewall_deny no_route seal_fail : Drop

pub record Outbound : Type 0 where
  pub addr : Bytes
  pub data_bytes : Bytes

-- A session's state after a call of it.
unfoldable pub set_session : Router → SiteName → Session → Router
set_session r n s =
    with_sites r n.tenant (update_site n.site (λ e. record e { sess = s }) (sites_of r n.tenant))

abbrev pub to_addr : Bytes → Bytes → Outbound
to_addr addr f = record { addr = addr; data_bytes = f }

unfoldable pub outbounds : Bytes → SealResult → List Outbound × List Drop
outbounds addr (sent frames) = (map (to_addr addr) frames, [])
outbounds addr (refused e) = ([], seal_fail ∷ [])

unfoldable pub seal_to : Router → SiteName → Bytes → SiteEntry → Router × List Outbound × List Drop
seal_to r to pkt e =
    let (s, result) = seal e.keys e.sess pkt in
    let (out, drops) = outbounds e.addr result in (set_session r to s, out, drops)

abbrev pub same_name : SiteName → SiteName → Bool
same_name a b = beq a.tenant b.tenant && beq a.site b.site

unfoldable pub forward_to :
    Router → SiteName → Bytes → Option SiteName → Router × List Outbound × List Drop
forward_to r from pkt none = (r, [], no_route ∷ [])
forward_to r from pkt (some to) =
    let entry = find_site to.site (sites_of r to.tenant) in
    if same_name to from
    then (r, [], no_route ∷ [])
    else elim entry [ none ↦ (r, [], no_route ∷ []) | some e ↦ seal_to r to pkt e ]

abbrev pub denied : Option (Bytes → Packet5Tuple → Bool) → Bytes → Packet5Tuple → Bool
denied none tenant t = false
denied (some allow) tenant t = not (allow tenant t)

unfoldable pub forward_tuple :
    Router → SiteName → Bytes → Option Packet5Tuple → Router × List Outbound × List Drop
forward_tuple r from pkt none = (r, [], parse_fail ∷ [])
forward_tuple r from pkt (some t) =
    let sent_on = forward_to r from pkt (route r from.tenant t.dst_ip) in
    if denied r.fw from.tenant t then (r, [], firewall_deny ∷ []) else sent_on

-- The body of the loop over the inner packets.
unfoldable pub forward : Router → SiteName → Bytes → Router × List Outbound × List Drop
forward r from pkt = forward_tuple r from pkt (parse_5tuple pkt)

unfoldable pub forward_all : Router → SiteName → List Bytes → Router × List Outbound × List Drop
forward_all r from [] = (r, [], [])
forward_all r from (p ∷ ps) =
    let (r', out, drops) = forward r from p in
    let (r'', out', drops') = forward_all r' from ps in (r'', out ++ out', drops ++ drops')

unfoldable pub after_open :
    Router → SiteName → Result (List Bytes) → Router × List Outbound × List Drop
after_open r from (err e) = (r, [], decrypt_fail ∷ [])
after_open r from (ok inners) = forward_all r from inners

unfoldable pub handle_from : Router → Bytes → SiteName → Router × List Outbound × List Drop
handle_from r datagram from = elim (find_site from.site (sites_of r from.tenant)) [
  | none ↦ (r, [], no_session ∷ [])
  | some e ↦
      let (s, result) = open_datagram e.keys e.sess datagram in
      after_open (set_session r from s) from result
]

unfoldable pub handle : Router → Bytes → Bytes → Router × List Outbound × List Drop
handle r datagram src = elim (get src r.by_src) [
  | none ↦ (r, [], no_session ∷ [])
  | some from ↦ handle_from r datagram from
]
