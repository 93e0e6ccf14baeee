-- ===== src/Dptunnel/Router/Tenants.antt =====
-- Registering, removing and updating keep every site under its own tenant.
use sase.Prelude.{◌≡◌, refl, Bool-cases, Option-cases, inl, inr, List, [], ◌∷◌, All, All-append}
use sase.Prelude.Bytes.{Bytes, beq, beq_iff}
use sase.Prelude.Dict.{Dict, get, bytes_key}
use sase.Net.{IpNet}
use sase.Dptunnel.Router.{
  SiteName, SiteEntry, Router, new_router, sites_of, find_site, drop_site, rebuild_routes,
  remove_locked, add_entry, register, deregister, with_sites, update_cidrs,
}
use sase.Dptunnel.Router.Routes.{sites_of-with_sites, sites_of-rebuild_routes}
use sase.Dptunnel.Router.Reach.{InTenant, All-update_site}

All-drop_site :
    (P : SiteEntry → Type 0) (site : Bytes) (es : List SiteEntry)
    → All P es
    → All P (drop_site site es)
unfolding drop_site
All-drop_site P site [] h = tt
All-drop_site P site (e ∷ es) h = elim (Bool-cases (beq e.site site)) [
  | inl b ↦ rw b h.1
  | inr b ↦ rw b (h.0, All-drop_site P site es h.1)
]

set-InTenant :
    (r : Router) (tenant : Bytes) (sites : List SiteEntry)
    → InTenant r
    → All (λ e. e.tenant ≡ tenant) sites
    → InTenant (rebuild_routes (with_sites r tenant sites) tenant)
unfolding InTenant
set-InTenant r tenant sites h k t = elim (Bool-cases (beq tenant t)) [
  | inl b ↦
      let same = (beq_iff tenant t).0 b in
      rw
        (
          sites_of-rebuild_routes (with_sites r tenant sites) tenant t,
          sites_of-with_sites r tenant t sites,
          b,
        )
        (rw same at k)
  | inr b ↦
      rw
        (
          sites_of-rebuild_routes (with_sites r tenant sites) tenant t,
          sites_of-with_sites r tenant t sites,
          b,
        )
        (h t)
]

by_src-InTenant :
    (r : Router) (m : Dict Bytes SiteName) → InTenant r → InTenant (record r { by_src = m })
unfolding InTenant sites_of
by_src-InTenant r m h t = h t

pub new_router-InTenant : InTenant new_router
unfolding InTenant new_router sites_of get
new_router-InTenant t = tt

own_sites : (r : Router) (t : Bytes) → InTenant r → All (λ e. e.tenant ≡ t) (sites_of r t)
unfolding InTenant
own_sites r t h = h t

remove_locked-InTenant :
    (r : Router) (tenant site : Bytes) → InTenant r → InTenant (remove_locked r tenant site)
unfolding remove_locked
remove_locked-InTenant r tenant site h = elim (Option-cases (find_site site (sites_of r tenant))) [
  | inl e ↦ rw (e, remove_locked) h
  | inr (x, e) ↦
      rw (e, remove_locked)
        (set-InTenant _ tenant _ (by_src-InTenant r _ h)
          (All-drop_site (λ e. e.tenant ≡ tenant) site (sites_of r tenant) (own_sites r tenant h)))
]

-- Registering a site keeps every site of the router under its own tenant.
pub register-InTenant : (r : Router) (e : SiteEntry) → InTenant r → InTenant (register r e)
unfolding register add_entry
register-InTenant r e h =
    let removed = remove_locked-InTenant r e.tenant e.site h in
    set-InTenant _ e.tenant _ (by_src-InTenant (remove_locked r e.tenant e.site) _ removed) (
      All-append (λ x. x.tenant ≡ e.tenant) (sites_of (remove_locked r e.tenant e.site) e.tenant)
        (e ∷ []) (own_sites (remove_locked r e.tenant e.site) e.tenant removed) (refl, tt))

pub deregister-InTenant :
    (r : Router) (tenant site : Bytes) → InTenant r → InTenant (deregister r tenant site)
unfolding deregister
deregister-InTenant r tenant site h = remove_locked-InTenant r tenant site h

pub update_cidrs-InTenant :
    (r : Router) (tenant site : Bytes) (cidrs : List IpNet)
    → InTenant r
    → InTenant (update_cidrs r tenant site cidrs).0
unfolding update_cidrs
update_cidrs-InTenant r tenant site cidrs h =
    elim (Option-cases (find_site site (sites_of r tenant))) [
      | inl e ↦ rw (e, update_cidrs) h
      | inr (x, e) ↦
          rw (e, update_cidrs)
            (set-InTenant r tenant _ h (
              All-update_site (λ e. e.tenant ≡ tenant) site (λ e. record e { cidrs = cidrs })
                (sites_of r tenant) (λ e g. g) (own_sites r tenant h)))
    ]
