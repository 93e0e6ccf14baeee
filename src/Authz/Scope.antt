-- ===== src/Authz/Scope.antt =====
-- What authorize grants: everything to platform administrators, otherwise one's own tenant.
use sase.Prelude.{
  ◌≡◌, ◌≢◌, refl, ◌⊎◌, arith, Bool, true, false, not, Option, some, [], ◌∷◌, ◌++◌, ◌↔◌, is_empty,
  is_empty-false, not_empty, All, drop, ◌==◌, ==_iff, sym, ap, ◌∙◌, inl, inr, Bool-cases,
}
use sase.Prelude.Bytes.{Bytes, bytes, beq, beq_iff, has_prefix, has_prefix→append, trim_prefix}
use sase.Authz.{
  Principal, role_platform_admin, role_auditor, split_slash, is_last, authorize_tenant, authorize,
}

-- What follows tenants/ in a path: the tenant up to a slash, and the rest.
pub tenant_path : Bytes → Bytes × Option Bytes
tenant_path path = split_slash (drop 8 (trim_prefix path (bytes "/api/v1/")))

tenant_access :
    (p : Principal) (write : Bool) (parts : Bytes × Option Bytes)
    → authorize_tenant p write parts ≡ true
    → p.role ≢ role_platform_admin
    → (p.tenant_id ≡ parts.0) × (is_empty parts.0 ≡ false)
unfolding authorize_tenant
tenant_access p write (tid, rest) h n =
    ground (arith, beq_iff p.role role_platform_admin, beq_iff p.tenant_id tid)

tenant_writes :
    (p : Principal) (write : Bool) (parts : Bytes × Option Bytes)
    → authorize_tenant p write parts ≡ true
    → p.role ≢ role_platform_admin
    → (p.role ≡ role_auditor) ⊎ (is_last parts.1 ≡ true)
    → write ≡ false
unfolding authorize_tenant
tenant_writes p write (tid, rest) h n r =
    ground (arith, beq_iff p.role role_platform_admin, beq_iff p.role role_auditor)

below_tenants :
    (p : Principal) (method path : Bytes)
    → authorize p method path ≡ true
    → p.role ≢ role_platform_admin
    → authorize_tenant p (not (beq method (bytes "GET"))) (tenant_path path) ≡ true
unfolding authorize tenant_path
below_tenants p method path h n = ground (arith, beq_iff p.role role_platform_admin)

only_get : (method : Bytes) → not (beq method (bytes "GET")) ≡ false → method ≡ bytes "GET"
only_get method h = ground (arith, beq_iff method (bytes "GET"))

below_prefix :
    (p : Principal) (method path : Bytes)
    → authorize p method path ≡ true
    → p.role ≢ role_platform_admin
    → has_prefix (trim_prefix path (bytes "/api/v1/")) (bytes "tenants/") ≡ true
unfolding authorize
below_prefix p method path h n = ground (arith, beq_iff p.role role_platform_admin)

-- A path that starts with tenants/ once /api/v1/ is taken off, if it is there.
under_tenants :
    (path : Bytes)
    → has_prefix (trim_prefix path (bytes "/api/v1/")) (bytes "tenants/") ≡ true
    → (path ≡ bytes "/api/v1/tenants/" ++ drop 8 (trim_prefix path (bytes "/api/v1/")))
      ⊎ (path ≡ bytes "tenants/" ++ drop 8 (trim_prefix path (bytes "/api/v1/")))
unfolding trim_prefix
under_tenants path h = elim (Bool-cases (has_prefix path (bytes "/api/v1/"))) [
  | inl b ↦
      let front = has_prefix→append path (bytes "/api/v1/") b in
      let under = has_prefix→append (drop 8 path) (bytes "tenants/") (rw b at h) in
      rw b (inl (front ∙ ap (λ t. bytes "/api/v1/" ++ t) under))
  | inr b ↦ rw b (inr (has_prefix→append path (bytes "tenants/") (rw b at h)))
]

split_slash_parts :
    (s : Bytes)
    → (s ≡ (split_slash s).0) ⊎ ((rest : Bytes) × (s ≡ (split_slash s).0 ++ (47 ∷ rest)))
unfolding split_slash
split_slash_parts [] = inl refl
split_slash_parts (c ∷ s) = elim (Bool-cases (c == 47)) [
  | inl b ↦ rw b (inr (s, ap (λ x. x ∷ s) ((==_iff c 47).0 b)))
  | inr b ↦ elim (split_slash_parts s) [
    | inl e ↦ rw b (inl (ap (◌∷◌ c) e))
    | inr (rest, e) ↦ rw b (inr (rest, ap (◌∷◌ c) e))
  ]
]

split_slash_last : (s : Bytes) → (split_slash s).0 ≡ s → is_last (split_slash s).1 ≡ true
unfolding split_slash
split_slash_last [] e = refl
split_slash_last (c ∷ s) e = elim (Bool-cases (c == 47)) [
  | inl b ↦ let e' : [] ≡ c ∷ s = rw b at e in absurd (cc)
  | inr b ↦ let e' : c ∷ (split_slash s).0 ≡ c ∷ s = rw b at e in rw b (split_slash_last s (cc))
]

-- Whoever is not a platform administrator is let through at most to tenants/<its own tenant>, under
-- /api/v1/ or without that, and to what is below it; the tenant is not empty. An auditor is let
-- through only to read, and so is everyone to the tenant itself.
pub authorize-own_tenant :
    (p : Principal) (method path : Bytes)
    → authorize p method path ≡ true
    → p.role ≢ role_platform_admin
    → (below : Bytes) × ((path ≡ bytes "/api/v1/tenants/" ++ below)
        ⊎ (path ≡ bytes "tenants/" ++ below))
      × (p.tenant_id ≢ [])
      × ((below ≡ p.tenant_id) ⊎ ((rest : Bytes) × (below ≡ p.tenant_id ++ (47 ∷ rest))))
      × ((p.role ≡ role_auditor) ⊎ (below ≡ p.tenant_id) → method ≡ bytes "GET")
authorize-own_tenant p method path h n =
    let write = not (beq method (bytes "GET")) in
    let below = drop 8 (trim_prefix path (bytes "/api/v1/")) in
    let inside = below_tenants p method path h n in
    let (own, named) = tenant_access p write (tenant_path path) inside n in
    let own_name : (split_slash below).0 ≡ p.tenant_id = unfold tenant_path in sym own in
    (
      below,
      under_tenants path (below_prefix p method path h n),
      rw own (not_empty (tenant_path path).0 named),
      rw (← own_name) (split_slash_parts below),
      λ r. only_get method (
          tenant_writes p write (tenant_path path) inside n (elim r [
            | inl a ↦ inl a
            | inr e ↦ inr (unfold tenant_path in split_slash_last below (own_name ∙ sym e))
          ])),
    )

-- A name without a slash.
abbrev pub IsName : Bytes → Type 0
IsName tid = All (λ c. (c == 47) ≡ false) tid

split_slash-append :
    (tid rest : Bytes) → IsName tid → split_slash (tid ++ 47 ∷ rest) ≡ (tid, some rest)
unfolding split_slash
split_slash-append [] rest h = refl
split_slash-append (c ∷ tid) rest h = rw (h.0, split_slash-append tid rest h.1)

authorize-tenants :
    (p : Principal) (method s : Bytes)
    → authorize p method (bytes "/api/v1/tenants/" ++ s)
      ≡ authorize_tenant p (not (beq method (bytes "GET"))) (split_slash s)
unfolding authorize trim_prefix has_prefix beq
authorize-tenants p method s = refl

granted :
    (p : Principal) (method tid rest : Bytes)
    → tid ≢ []
    → (authorize_tenant p (not (beq method (bytes "GET"))) (tid, some rest) ≡ true) ↔ (
        (p.role ≡ role_platform_admin)
        ⊎ ((p.tenant_id ≡ tid) × (p.role ≡ role_auditor → method ≡ bytes "GET")))
unfolding authorize_tenant
granted p method tid rest given =
    let e = is_empty-false tid given in
    ground (
      arith,
      beq_iff p.role role_platform_admin,
      beq_iff p.role role_auditor,
      beq_iff p.tenant_id tid,
      beq_iff method (bytes "GET"),
    )

-- On a path below a tenant, of any name without a slash, exactly the platform administrators and
-- the principals of that tenant are let through, auditors only to read.
pub authorize-below_tenant :
    (p : Principal) (method tid rest : Bytes)
    → IsName tid
    → tid ≢ []
    → (authorize p method (bytes "/api/v1/tenants/" ++ (tid ++ 47 ∷ rest)) ≡ true) ↔ (
        (p.role ≡ role_platform_admin)
        ⊎ ((p.tenant_id ≡ tid) × (p.role ≡ role_auditor → method ≡ bytes "GET")))
authorize-below_tenant p method tid rest named given =
    rw (authorize-tenants p method (tid ++ 47 ∷ rest), split_slash-append tid rest named)
      (granted p method tid rest given)
