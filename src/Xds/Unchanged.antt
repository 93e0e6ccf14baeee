-- ===== src/Xds/Unchanged.antt =====
-- What reading resources into the caches leaves alone: the streams and their counts.
use sase.Prelude.{ℕ, length, ◌≡◌, refl, arith, Option, none, some, List, [], ◌∷◌}
use sase.Prelude.Bytes.{Bytes}
use sase.Prelude.Result.{Result, ok, err}
use sase.Xds.Resources.{
  Kind, policy, revocation, swg, site, fw, dlp, Resource, Error, Bundle, Database, read_swg,
  read_fw, read_dlp, read_sites, read_revocations, read_bundle, swg_rule_set, site_config,
  fw_rule_set, dlp_rule_set, revocation_list, policy_bundle,
}
use sase.Xds.Server.{
  CacheApi, Server, resource_name, pushed, push, push_bundle, push_list, load_tenant,
  load_revocations, load_swg, load_fw, load_dlp, load_sites,
}
use sase.Xds.Requests.{load, load_all, reconcile}

-- The two servers have the same streams, counts and strictness.
unfoldable pub SameSubs : {C : Type 0} → Server C → Server C → Type 0
SameSubs s t =
    (s.streams ≡ t.streams)
    × (s.tenant_refs ≡ t.tenant_refs)
    × (s.strict_sub_auth ≡ t.strict_sub_auth)

module _ {C : Type 0} (api : CacheApi C) where
  SameSubs-refl : (s : Server C) → SameSubs s s
  unfolding SameSubs
  SameSubs-refl s = (refl, refl, refl)

  pub SameSubs-trans : (s t u : Server C) → SameSubs t s → SameSubs u t → SameSubs u s
  unfolding SameSubs
  SameSubs-trans s t u h k =
      (ground (arith, h.0, k.0), ground (arith, h.1, k.1), ground (arith, h.2, k.2))

  pushed-same : (k : Kind) (c : Option C) (s : Server C) → SameSubs (pushed api k c s) s
  unfolding SameSubs pushed
  pushed-same k none s = (refl, refl, refl)
  pushed-same k (some c) s = (refl, refl, refl)

  push-same :
      (k : Kind) (tid : Bytes) (res : Resource) (s : Server C) → SameSubs (push api k tid res s) s
  unfolding push
  push-same k tid res s = pushed-same k (api.update_resource (resource_name tid) res (s.caches k)) s

  push_bundle-same :
      (tid : Bytes) (r : Result Error (Option Bundle)) (s : Server C)
      → SameSubs (push_bundle api tid r s) s
  unfolding push_bundle
  push_bundle-same tid (err e) s = SameSubs-refl s
  push_bundle-same tid (ok none) s = SameSubs-refl s
  push_bundle-same tid (ok (some b)) s =
      push-same policy tid (policy_bundle tid b.version b.compiled) s

  push_list-same :
      {R : Type 0} (k : Kind) (tid : Bytes) (res : Bytes → ℕ → List R → Resource)
      (r : Result Error (List R)) (s : Server C)
      → SameSubs (push_list api k tid res r s) s
  unfolding push_list
  push_list-same k tid res (err e) s = SameSubs-refl s
  push_list-same k tid res (ok rows) s = push-same k tid (res tid (length rows) rows) s

  pub load_tenant-same :
      (db : Database) (tid : Bytes) (s : Server C) → SameSubs (load_tenant api db tid s) s
  unfolding load_tenant
  load_tenant-same db tid s = push_bundle-same tid (read_bundle db tid) s

  pub load_revocations-same :
      (db : Database) (tid : Bytes) (s : Server C) → SameSubs (load_revocations api db tid s) s
  unfolding load_revocations
  load_revocations-same db tid s =
      push_list-same revocation tid revocation_list (read_revocations db tid) s

  pub load_swg-same :
      (db : Database) (tid : Bytes) (s : Server C) → SameSubs (load_swg api db tid s) s
  unfolding load_swg
  load_swg-same db tid s = push_list-same swg tid swg_rule_set (read_swg db tid) s

  pub load_fw-same :
      (db : Database) (tid : Bytes) (s : Server C) → SameSubs (load_fw api db tid s) s
  unfolding load_fw
  load_fw-same db tid s = push_list-same fw tid fw_rule_set (read_fw db tid) s

  pub load_dlp-same :
      (db : Database) (tid : Bytes) (s : Server C) → SameSubs (load_dlp api db tid s) s
  unfolding load_dlp
  load_dlp-same db tid s = push_list-same dlp tid dlp_rule_set (read_dlp db tid) s

  pub load_sites-same :
      (db : Database) (tid : Bytes) (s : Server C) → SameSubs (load_sites api db tid s) s
  unfolding load_sites
  load_sites-same db tid s = push_list-same site tid site_config (read_sites db tid) s

  pub load-same :
      (db : Database) (url tid : Bytes) (s : Server C) → SameSubs (load api db url tid s) s
  unfolding load
  load-same db url tid s = ground (
    arith,
    SameSubs-refl s,
    load_tenant-same db tid s,
    load_revocations-same db tid s,
    load_swg-same db tid s,
    load_fw-same db tid s,
    load_dlp-same db tid s,
    load_sites-same db tid s,
  )

  pub load_all-same :
      (db : Database) (tid : Bytes) (s : Server C) → SameSubs (load_all api db tid s) s
  unfolding load_all
  load_all-same db tid s =
      let a = load_tenant api db tid s in
      let b = load_revocations api db tid a in
      let c = load_swg api db tid b in
      let d = load_sites api db tid c in
      let e = load_fw api db tid d in
      SameSubs-trans s a (load_dlp api db tid e) (load_tenant-same db tid s) (
        SameSubs-trans a b (load_dlp api db tid e) (load_revocations-same db tid a) (
          SameSubs-trans b c (load_dlp api db tid e) (load_swg-same db tid b) (
            SameSubs-trans c d (load_dlp api db tid e) (load_sites-same db tid c) (
              SameSubs-trans d e (load_dlp api db tid e) (load_fw-same db tid d)
                (load_dlp-same db tid e)))))

  pub reconcile-same :
      (db : Database) (tids : List Bytes) (s : Server C) → SameSubs (reconcile api db tids s) s
  unfolding reconcile
  reconcile-same db [] s = SameSubs-refl s
  reconcile-same db (tid ∷ tids) s =
      SameSubs-trans s (load_all api db tid s) (reconcile api db tids (load_all api db tid s))
        (load_all-same db tid s) (reconcile-same db tids (load_all api db tid s))
