-- ===== src/Dptunnel/Router/Routes.antt =====
-- The routing tables always come from the registered sites, as every operation rebuilds them.
use sase.Prelude.{
  ◌≡◌, refl, sym, ◌∙◌, ap, arith, false, Bool-cases, Option-cases, inl, inr, List, [], ◌∷◌, Option,
  none, some, if◌then◌else◌, is_empty,
}
use sase.Prelude.Bytes.{Bytes, beq, beq_iff, beq_refl}
use sase.Prelude.Dict.{Dict, get, get-put, get-del, bytes_key}
use sase.Net.{IpNet}
use sase.Dptunnel.Session.{Session}
use sase.Dptunnel.Router.{
  SiteName, SiteEntry, TenantRoutes, Router, new_router, sites_of, find_site, update_site,
  insert_cidrs, insert_sites, build_routes, rebuild_routes, remove_locked, add_entry, register,
  deregister, with_sites, update_cidrs, set_session,
}

-- The table that a tenant's sites call for.
unfoldable pub table_of : List SiteEntry → Option TenantRoutes
table_of sites = if is_empty sites then none else some (build_routes sites)

-- Every tenant's table is the one its sites call for.
unfoldable pub IsDerived : Router → Type 0
IsDerived r = (t : Bytes) → get t r.routes ≡ table_of (sites_of r t)

-- The same but for one tenant.
DerivedBut : Bytes → Router → Type 0
DerivedBut tenant r = (t : Bytes) → beq tenant t ≡ false → get t r.routes ≡ table_of (sites_of r t)

pub sites_of-rebuild_routes :
    (r : Router) (tenant t : Bytes) → sites_of (rebuild_routes r tenant) t ≡ sites_of r t
unfolding rebuild_routes sites_of
sites_of-rebuild_routes r tenant t = ground arith

pub sites_of-with_sites :
    (r : Router) (tenant t : Bytes) (sites : List SiteEntry)
    → sites_of (with_sites r tenant sites) t ≡ (if beq tenant t then sites else sites_of r t)
unfolding sites_of with_sites
sites_of-with_sites r tenant t sites = ground (arith, get-put tenant t sites r.by_tenant)

rebuilt_self :
    (r : Router) (tenant : Bytes)
    → get tenant (rebuild_routes r tenant).routes ≡ table_of (sites_of r tenant)
unfolding rebuild_routes table_of
rebuilt_self r tenant = ground (
  arith,
  get-put tenant tenant (build_routes (sites_of r tenant)) r.routes,
  get-del tenant tenant r.routes,
  beq_refl tenant,
)

rebuilt-others :
    (r : Router) (tenant t : Bytes)
    → beq tenant t ≡ false
    → get t (rebuild_routes r tenant).routes ≡ get t r.routes
unfolding rebuild_routes
rebuilt-others r tenant t h =
    ground (
      arith,
      get-put tenant t (build_routes (sites_of r tenant)) r.routes,
      get-del tenant t r.routes,
    )

rebuild-IsDerived :
    (r : Router) (tenant : Bytes) → DerivedBut tenant r → IsDerived (rebuild_routes r tenant)
unfolding IsDerived DerivedBut
rebuild-IsDerived r tenant h t = elim (Bool-cases (beq tenant t)) [
  | inl e ↦
      let same = (beq_iff tenant t).0 e in
      rw (sites_of-rebuild_routes r tenant t, sym same) (rebuilt_self r tenant)
  | inr e ↦ rw (sites_of-rebuild_routes r tenant t) (rebuilt-others r tenant t e ∙ h t e)
]

kept_routes :
    (r : Router) (tenant t : Bytes) (sites : List SiteEntry)
    → get t (with_sites r tenant sites).routes ≡ get t r.routes
unfolding with_sites
kept_routes r tenant t sites = refl

by_src-IsDerived :
    (r : Router) (m : Dict Bytes SiteName) → IsDerived r → IsDerived (record r { by_src = m })
unfolding IsDerived sites_of
by_src-IsDerived r m h t = h t

set-IsDerived :
    (r : Router) (tenant : Bytes) (sites : List SiteEntry)
    → IsDerived r
    → IsDerived (rebuild_routes (with_sites r tenant sites) tenant)
unfolding IsDerived DerivedBut
set-IsDerived r tenant sites h = rebuild-IsDerived (with_sites r tenant sites) tenant (λ t e.
    kept_routes r tenant t sites
    ∙ h t
    ∙ ap table_of (sym (sites_of-with_sites r tenant t sites ∙ rw e)))

pub new_router-IsDerived : IsDerived new_router
unfolding IsDerived new_router sites_of get table_of
new_router-IsDerived t = refl

remove_locked-IsDerived :
    (r : Router) (tenant site : Bytes) → IsDerived r → IsDerived (remove_locked r tenant site)
unfolding remove_locked
remove_locked-IsDerived r tenant site h = elim (Option-cases (find_site site (sites_of r tenant))) [
  | inl e ↦ rw (e, remove_locked) h
  | inr (x, e) ↦ rw (e, remove_locked) (set-IsDerived _ tenant _ (by_src-IsDerived r _ h))
]

-- Registering a site keeps every tenant's table the one its sites call for, whether the site is new or
-- replaces an earlier entry.
pub register-IsDerived : (r : Router) (e : SiteEntry) → IsDerived r → IsDerived (register r e)
unfolding register add_entry
register-IsDerived r e h = set-IsDerived _ e.tenant _ (
    by_src-IsDerived (remove_locked r e.tenant e.site) _
      (remove_locked-IsDerived r e.tenant e.site h))

pub deregister-IsDerived :
    (r : Router) (tenant site : Bytes) → IsDerived r → IsDerived (deregister r tenant site)
unfolding deregister
deregister-IsDerived r tenant site h = remove_locked-IsDerived r tenant site h

-- Changing a site's networks keeps every tenant's table the one its sites call for.
pub update_cidrs-IsDerived :
    (r : Router) (tenant site : Bytes) (cidrs : List IpNet)
    → IsDerived r
    → IsDerived (update_cidrs r tenant site cidrs).0
unfolding update_cidrs
update_cidrs-IsDerived r tenant site cidrs h =
    elim (Option-cases (find_site site (sites_of r tenant))) [
      | inl e ↦ rw (e, update_cidrs) h
      | inr (x, e) ↦ rw (e, update_cidrs) (set-IsDerived r tenant _ h)
    ]

-- A session's state is no part of the tables.
build_same_session :
    (site : Bytes) (s : Session) (sites : List SiteEntry) (tr : TenantRoutes)
    → insert_sites tr (update_site site (λ e. record e { sess = s }) sites) ≡ insert_sites tr sites
unfolding insert_sites update_site
build_same_session site s [] tr = refl
build_same_session site s (e ∷ es) tr = elim (Bool-cases (beq e.site site)) [
  | inl h ↦ rw h refl
  | inr h ↦ rw h (
      build_same_session site s es
        (insert_cidrs (record { tenant = e.tenant; site = e.site }) tr e.cidrs))
]

is_empty-update_site :
    (site : Bytes) (f : SiteEntry → SiteEntry) (sites : List SiteEntry)
    → is_empty (update_site site f sites) ≡ is_empty sites
unfolding update_site
is_empty-update_site site f [] = refl
is_empty-update_site site f (e ∷ es) = ground arith

table_same_session :
    (site : Bytes) (s : Session) (sites : List SiteEntry)
    → table_of (update_site site (λ e. record e { sess = s }) sites) ≡ table_of sites
unfolding table_of build_routes
table_same_session site s sites =
    rw
      (
        is_empty-update_site site (λ e. record e { sess = s }) sites,
        build_same_session site s sites,
      )
      refl

pub set_session-IsDerived :
    (r : Router) (n : SiteName) (s : Session) → IsDerived r → IsDerived (set_session r n s)
unfolding IsDerived set_session
set_session-IsDerived r n s h t = elim (Bool-cases (beq n.tenant t)) [
  | inl e ↦
      let same = (beq_iff n.tenant t).0 e in
      kept_routes r n.tenant t _
      ∙ h t
      ∙ ap table_of (ap (sites_of r) (sym same))
      ∙ sym (table_same_session n.site s (sites_of r n.tenant))
      ∙ ap table_of (sym (sites_of-with_sites r n.tenant t _ ∙ rw e))
  | inr e ↦
      kept_routes r n.tenant t _
      ∙ h t
      ∙ ap table_of (sym (sites_of-with_sites r n.tenant t _ ∙ rw e))
]
