-- ===== src/Authz/Tests.antt =====
-- A guard whose verifier knows two tokens.
use sase.Prelude.{
  ◌≡◌, ◌≢◌, ◌⊎◌, refl, arith, true, [], ◌∷◌, ◌++◌, Option, none, some, if◌then◌else◌,
}
use sase.Prelude.Bytes.{Bytes, bytes, beq, has_prefix, trim_prefix}
use sase.Authz
use sase.Authz.{
  Principal, Claims, Request, Activity, role_platform_admin, role_auditor, authorize, middleware,
  served, is_public, active,
}
use sase.Authz.Scope.{authorize-own_tenant}
use sase.Authz.Gate.{Entitled, middleware-Entitled}

abbrev one_token : Bytes → Option Claims
one_token token =
    if beq token (bytes "t1")
    then some (record { subject = bytes "root"; role = bytes "platform_admin"; tenant_id = [] })
    else none

abbrev all_active : Bytes → Activity
all_active subject = active

abbrev root : Principal
root = record { subject = bytes "root"; role = bytes "platform_admin"; tenant_id = [] }

abbrev list_tenants : Request
list_tenants = record {
  method = bytes "GET";
  path = bytes "/api/v1/tenants";
  authorization = bytes "Bearer t1";
  cookie = none;
}

root_served : middleware one_token (some all_active) list_tenants ≡ served (some root)
unfolding middleware is_public Authz.guarded Authz.authenticate Authz.extract_token
    Authz.verify_admin_token Authz.valid_admin_role Authz.admit Authz.revocation authorize
    has_prefix trim_prefix beq
root_served = refl

middleware-Entitled_example : Entitled one_token (some all_active) list_tenants root
middleware-Entitled_example =
    middleware-Entitled one_token (some all_active) list_tenants root root_served

abbrev auditor : Principal
auditor = record { subject = bytes "ann"; role = bytes "auditor"; tenant_id = bytes "t7" }

auditor_reads : authorize auditor (bytes "GET") (bytes "/api/v1/tenants/t7/policies") ≡ true
unfolding authorize Authz.authorize_tenant Authz.split_slash has_prefix trim_prefix beq
auditor_reads = refl

auditor_not_admin : auditor.role ≢ role_platform_admin
auditor_not_admin e = ground arith

authorize-own_tenant_example :
    (below : Bytes) × ((bytes "/api/v1/tenants/t7/policies" ≡ bytes "/api/v1/tenants/" ++ below)
      ⊎ (bytes "/api/v1/tenants/t7/policies" ≡ bytes "tenants/" ++ below))
    × (auditor.tenant_id ≢ [])
    × ((below ≡ auditor.tenant_id) ⊎ ((rest : Bytes) × (below ≡ auditor.tenant_id ++ (47 ∷ rest))))
    × ((auditor.role ≡ role_auditor) ⊎ (below ≡ auditor.tenant_id) → bytes "GET" ≡ bytes "GET")
authorize-own_tenant_example =
    authorize-own_tenant auditor (bytes "GET") (bytes "/api/v1/tenants/t7/policies") auditor_reads
      auditor_not_admin
