-- ===== src/Xds/Requests.antt =====
-- internal/xds/server.go: onDeltaRequest, the notifications and ReconcileAll. The database does not
-- change during one call.
use sase.Prelude.{ℕ, List, [], ◌∷◌, if◌then◌else◌, is_empty}
use sase.Prelude.Bytes.{Bytes, beq}
use sase.Prelude.Dict.{Dict, bytes_key}
use sase.Prelude.Result.{Result, ok, err}
use sase.Xds.Auth.{StreamAuth, Reason, named, authorize_subscription}
use sase.Xds.Resources.{policy, revocation, swg, site, fw, dlp, Database}
use sase.Xds.Server.{
  CacheApi, Server, tenant_from_name, load_tenant, load_revocations, load_swg, load_fw, load_dlp,
  load_sites, auth_for, record_ref,
}

pub record DeltaRequest : Type 0 where
  pub type_url : Bytes
  pub resource_names_subscribe : List Bytes

-- The errors, all of them PermissionDenied.
pub data Denied : Type 0 where
  wildcard : Denied
  bad_name : Bytes → Denied
  refused : Bytes → Reason → Denied

unfoldable pub tenants_of : Dict Bytes ℕ → List Bytes
tenants_of [] = []
tenants_of ((tid, n) ∷ refs) = tid ∷ tenants_of refs

module _ {C : Type 0} (api : CacheApi C) where
  -- The switch on the type of a request.
  unfoldable pub load : Database → Bytes → Bytes → Server C → Server C
  load db url tid s =
      if beq url (api.type_url policy)
      then load_tenant api db tid s
      else if beq url (api.type_url revocation)
      then load_revocations api db tid s
      else if beq url (api.type_url swg)
      then load_swg api db tid s
      else if beq url (api.type_url site)
      then load_sites api db tid s
      else if beq url (api.type_url fw)
      then load_fw api db tid s
      else if beq url (api.type_url dlp)
      then load_dlp api db tid s
      else s

  -- The loop over the names of a request.
  unfoldable pub subscribe_all :
      Database
      → ℕ
      → Bytes
      → List Bytes
      → StreamAuth
      → Server C
      → Result Denied (Unit {0}) × Server C
  subscribe_all db id url [] sa s = (ok tt, s)
  subscribe_all db id url (name ∷ names) sa s =
      let tid = tenant_from_name name in
      let verdict =
        authorize_subscription sa.role sa.has_cert sa.cert_tenant tid s.strict_sub_auth in
      let recorded = record_ref api id sa tid url s in
      let rest = subscribe_all db id url names recorded.0 (load db url tid recorded.1) in
      if is_empty tid
      then (err (bad_name name), s)
      else if verdict.0
      then rest
      else (err (refused tid verdict.1), s)

  unfoldable pub on_delta_request :
      Database → ℕ → DeltaRequest → Server C → Result Denied (Unit {0}) × Server C
  on_delta_request db id req s =
      let found = auth_for api id s in
      let answer = if named req.type_url found.0.named_types then ok tt else err wildcard in
      if is_empty req.resource_names_subscribe
      then (answer, found.1)
      else subscribe_all db id req.type_url req.resource_names_subscribe found.0 found.1

  unfoldable pub on_notify : Database → Bytes → Server C → Server C
  on_notify db tid s = load_tenant api db tid s

  unfoldable pub on_revocation_notify : Database → Bytes → Server C → Server C
  on_revocation_notify db tid s = load_revocations api db tid s

  unfoldable pub on_swg_notify : Database → Bytes → Server C → Server C
  on_swg_notify db tid s = load_swg api db tid s

  unfoldable pub on_site_notify : Database → Bytes → Server C → Server C
  on_site_notify db tid s = load_sites api db tid s

  unfoldable pub on_fw_notify : Database → Bytes → Server C → Server C
  on_fw_notify db tid s = load_fw api db tid s

  unfoldable pub on_dlp_notify : Database → Bytes → Server C → Server C
  on_dlp_notify db tid s = load_dlp api db tid s

  unfoldable pub load_all : Database → Bytes → Server C → Server C
  load_all db tid s = load_dlp api db tid (
      load_fw api db tid (
        load_sites api db tid
          (load_swg api db tid (load_revocations api db tid (load_tenant api db tid s)))))

  unfoldable pub reconcile : Database → List Bytes → Server C → Server C
  reconcile db [] s = s
  reconcile db (tid ∷ tids) s = reconcile db tids (load_all db tid s)

  unfoldable pub reconcile_all : Database → Server C → Server C
  reconcile_all db s = reconcile db (tenants_of s.tenant_refs) s
