-- ===== src/Dptunnel/Router/Reach.antt =====
-- A destination is looked up within the tenant that asks, and what holds of the sites holds of the
-- entries found and of those with a new session state.
use mathlib.Core.Path.{subst}
use mathlib.Core.Option.{some-injective}
use sase.Prelude.{
  ◌≡◌, sym, Bool-cases, Option-cases, inl, inr, List, [], ◌∷◌, Option, none, some, All, ◌==◌,
}
use sase.Prelude.Bytes.{Bytes, beq, beq_iff}
use sase.Prelude.Dict.{get, bytes_key}
use sase.Net.{IpNet, to4, to16, mask_size}
use sase.Dptunnel.Lpm.{new_trie}
use sase.Dptunnel.Lpm.Values.{Each, EachNode, Each-insert, Each-longest_prefix}
use sase.Dptunnel.Session.{Session}
use sase.Dptunnel.Router.{
  SiteName, SiteEntry, TenantRoutes, Router, sites_of, find_site, update_site, insert_cidr,
  insert_cidrs, insert_sites, build_routes, set_session, route_in, route,
}
use sase.Dptunnel.Router.Routes.{IsDerived, table_of, sites_of-with_sites}

module _ (P : SiteName → Type 0) where
  abbrev Both : TenantRoutes → Type 0
  Both tr = EachNode P tr.v4.root × EachNode P tr.v6.root

  Both-insert_cidr :
      (n : SiteName) (tr : TenantRoutes) (c : IpNet) → P n → Both tr → Both (insert_cidr n tr c)
  unfolding insert_cidr
  Both-insert_cidr n tr c p h = elim (Bool-cases ((mask_size c.mask).1 == 32)) [
    | inl e ↦ rw e (Each-insert P tr.v4 _ _ n p h.0, h.1)
    | inr e ↦ rw e (h.0, Each-insert P tr.v6 _ _ n p h.1)
  ]

  Both-insert_cidrs :
      (n : SiteName) (tr : TenantRoutes) (cs : List IpNet)
      → P n
      → Both tr
      → Both (insert_cidrs n tr cs)
  unfolding insert_cidrs
  Both-insert_cidrs n tr [] p h = h
  Both-insert_cidrs n tr (c ∷ cs) p h =
      Both-insert_cidrs n (insert_cidr n tr c) cs p (Both-insert_cidr n tr c p h)

  Both-insert_sites :
      (tr : TenantRoutes) (es : List SiteEntry)
      → All (λ e. P (record { tenant = e.tenant; site = e.site })) es
      → Both tr
      → Both (insert_sites tr es)
  unfolding insert_sites
  Both-insert_sites tr [] p h = h
  Both-insert_sites tr (e ∷ es) p h =
      Both-insert_sites (insert_cidrs _ tr e.cidrs) es p.1 (Both-insert_cidrs _ tr e.cidrs p.0 h)

  Both-build :
      (es : List SiteEntry)
      → All (λ e. P (record { tenant = e.tenant; site = e.site })) es
      → Both (build_routes es)
  unfolding build_routes new_trie
  Both-build es p = Both-insert_sites _ es p ((tt, tt, tt), (tt, tt, tt))

  Each-route_in : (tr : TenantRoutes) (dst : Bytes) → Both tr → Each P (route_in tr dst)
  unfolding route_in
  Each-route_in tr dst h = elim (Option-cases (to4 dst)) [
    | inl e ↦ rw (e, route_in) (Each-longest_prefix P tr.v6 (to16 dst) h.1)
    | inr (ip4, e) ↦ rw (e, route_in) (Each-longest_prefix P tr.v4 ip4 h.0)
  ]

  Each-table_of :
      (es : List SiteEntry) (dst : Bytes)
      → All (λ e. P (record { tenant = e.tenant; site = e.site })) es
      → (o : Option TenantRoutes) → o ≡ table_of es
      → Each P (elim o [ none ↦ none | some tr ↦ route_in tr dst ])
  unfolding table_of
  Each-table_of es dst h none e = tt
  Each-table_of [] dst h (some tr) e = absurd cc
  Each-table_of (x ∷ es) dst h (some tr) e =
      subst (λ u. Each P (route_in u dst)) (sym (some-injective tr (build_routes (x ∷ es)) e))
        (Each-route_in _ dst (Both-build (x ∷ es) h))

-- Every site stands under its own tenant.
unfoldable pub InTenant : Router → Type 0
InTenant r = (t : Bytes) → All (λ e. e.tenant ≡ t) (sites_of r t)

-- A destination is found within the tenant that asked.
pub route-tenant :
    (r : Router) (t dst : Bytes)
    → IsDerived r
    → InTenant r
    → Each (λ n. n.tenant ≡ t) (route r t dst)
unfolding route IsDerived InTenant
route-tenant r t dst d h =
    Each-table_of (λ n. n.tenant ≡ t) (sites_of r t) dst (h t) (get t r.routes) (d t)

pub All-update_site :
    (P : SiteEntry → Type 0) (site : Bytes) (f : SiteEntry → SiteEntry) (es : List SiteEntry)
    → ((e : SiteEntry) → P e → P (f e))
    → All P es
    → All P (update_site site f es)
unfolding update_site
All-update_site P site f [] p h = tt
All-update_site P site f (e ∷ es) p h = elim (Bool-cases (beq e.site site)) [
  | inl g ↦ rw g (p e h.0, h.1)
  | inr g ↦ rw g (h.0, All-update_site P site f es p h.1)
]

pub All-find_site :
    (P : SiteEntry → Type 0) (site : Bytes) (es : List SiteEntry) (e : SiteEntry)
    → All P es
    → find_site site es ≡ some e
    → P e
unfolding find_site
All-find_site P site [] e h g = absurd cc
All-find_site P site (x ∷ es) e h g = elim (Bool-cases (beq x.site site)) [
  | inl b ↦ let k : some x ≡ some e = rw b at g in subst P (some-injective x e k) h.0
  | inr b ↦ All-find_site P site es e h.1 (rw b at g)
]

pub All-set_session :
    (P : SiteEntry → Type 0) (r : Router) (n : SiteName) (s : Session) (t : Bytes)
    → ((e : SiteEntry) → P e → P (record e { sess = s }))
    → All P (sites_of r t)
    → All P (sites_of (set_session r n s) t)
unfolding set_session
All-set_session P r n s t p h =
    let e =
      sites_of-with_sites r n.tenant t
        (update_site n.site (λ e. record e { sess = s }) (sites_of r n.tenant)) in
    elim (Bool-cases (beq n.tenant t)) [
      | inl b ↦
          let same = (beq_iff n.tenant t).0 b in
          rw (e, b)
            (All-update_site P n.site (λ e. record e { sess = s }) (sites_of r n.tenant) p
              (rw same h))
      | inr b ↦ rw (e, b) h
    ]
