-- ===== src/Xds/Reconcile.antt =====
-- internal/xds/server.go: what the caches hold after a reconciliation.
mod Names
use sase.Prelude.{
  ℕ, ◌≡◌, refl, sym, arith, Bool-cases, inl, inr, Option, none, some, List, [], ◌∷◌, if◌then◌else◌,
  length, Any, ◌&&◌, &&-true,
}
use sase.Prelude.Bytes.{Bytes, beq, beq_iff, beq_refl}
use sase.Prelude.Dict.{Dict, get, bytes_key}
use sase.Prelude.Result.{Result, ok, err}
use sase.Xds.Resources.{
  Kind, policy, revocation, swg, site, fw, dlp, same_kind, Resource, policy_bundle, revocation_list,
  swg_rule_set, site_config, fw_rule_set, dlp_rule_set, Error, Bundle, Database, read_swg, read_fw,
  read_dlp, read_sites, read_revocations, read_bundle,
}
use sase.Xds.Server.{
  CacheApi, Server, resource_name, pushed, push, push_bundle, push_list, load_tenant,
  load_revocations, load_swg, load_fw, load_dlp, load_sites,
}
use sase.Xds.Requests.{load_all, reconcile, reconcile_all, tenants_of}
use sase.Xds.Unchanged.{SameSubs, reconcile-same}
use sase.Xds.Eviction.{CacheLaws}
use sase.Xds.Reconcile.Names.{same_kind→eq, same_kind_refl, beq-resource_name}

unfoldable pub bundle_resource : Bytes → Result Error (Option Bundle) → Option Resource
bundle_resource tid (err e) = none
bundle_resource tid (ok none) = none
bundle_resource tid (ok (some b)) = some (policy_bundle tid b.version b.compiled)

unfoldable pub list_resource :
    {R : Type 0} → Bytes → (Bytes → ℕ → List R → Resource) → Result Error (List R) → Option Resource
list_resource tid res (err e) = none
list_resource tid res (ok rows) = some (res tid (length rows) rows)

-- The resource that the database has for a tenant, unless it cannot be read or there is no bundle.
unfoldable pub stored : Database → Bytes → Kind → Option Resource
stored db tid policy = bundle_resource tid (read_bundle db tid)
stored db tid revocation = list_resource tid revocation_list (read_revocations db tid)
stored db tid swg = list_resource tid swg_rule_set (read_swg db tid)
stored db tid site = list_resource tid site_config (read_sites db tid)
stored db tid fw = list_resource tid fw_rule_set (read_fw db tid)
stored db tid dlp = list_resource tid dlp_rule_set (read_dlp db tid)

module _ {C : Type 0} (api : CacheApi C) (laws : CacheLaws api) where
  -- A resource, if there is one, put into its cache.
  refreshed : Kind → Bytes → Option Resource → Server C → Server C
  refreshed k tid none s = s
  refreshed k tid (some res) s = push api k tid res s

  abbrev seen : Server C → Kind → Bytes → Option Resource
  seen s k tid = laws.look_up (resource_name tid) (s.caches k)

  abbrev overwrite : Option Resource → Option Resource → Option Resource
  overwrite none old = old
  overwrite (some res) old = some res

  seen-refreshed :
      (k j : Kind) (tid other : Bytes) (o : Option Resource) (s : Server C)
      → seen (refreshed k tid o s) j other
        ≡ (if same_kind k j && beq tid other then overwrite o (seen s j other) else seen s j other)
  unfolding refreshed push pushed
  seen-refreshed k j tid other none s = ground arith
  seen-refreshed k j tid other (some res) s =
      let (d, e) = laws.update_ok (resource_name tid) res (s.caches k) in
      let law =
        laws.look_up-update (resource_name tid) (resource_name other) res (s.caches k) d e in
      let name = beq-resource_name tid other in rw e (ground (arith, law, name, same_kind→eq k j))

  seen_keep :
      (db : Database) (k j : Kind) (tid other : Bytes) (res : Resource) (s : Server C)
      → stored db other j ≡ some res
      → seen s j other ≡ some res
      → seen (refreshed k tid (stored db tid k) s) j other ≡ some res
  seen_keep db k j tid other res s d h = elim (Bool-cases (same_kind k j && beq tid other)) [
    | inl b ↦
        let (kind, name) = &&-true (same_kind k j) (beq tid other) b in
        let kj : k ≡ j = same_kind→eq k j kind in
        let to : tid ≡ other = (beq_iff tid other).0 name in
        rw (seen-refreshed k j tid other (stored db tid k) s, b, kj, to, d) refl
    | inr b ↦ rw (seen-refreshed k j tid other (stored db tid k) s, b) h
  ]

  seen_new :
      (db : Database) (j : Kind) (tid : Bytes) (res : Resource) (s : Server C)
      → stored db tid j ≡ some res
      → seen (refreshed j tid (stored db tid j) s) j tid ≡ some res
  seen_new db j tid res s d =
      rw (seen-refreshed j j tid tid (stored db tid j) s, same_kind_refl j, beq_refl tid, d) refl

  refresh_kinds : Database → Bytes → List Kind → Server C → Server C
  refresh_kinds db tid [] s = s
  refresh_kinds db tid (k ∷ ks) s = refresh_kinds db tid ks (refreshed k tid (stored db tid k) s)

  kinds_keep :
      (db : Database) (ks : List Kind) (j : Kind) (tid other : Bytes) (res : Resource)
      (s : Server C)
      → stored db other j ≡ some res
      → seen s j other ≡ some res
      → seen (refresh_kinds db tid ks s) j other ≡ some res
  unfolding refresh_kinds
  kinds_keep db [] j tid other res s d h = h
  kinds_keep db (k ∷ ks) j tid other res s d h =
      kinds_keep db ks j tid other res (refreshed k tid (stored db tid k) s) d
        (seen_keep db k j tid other res s d h)

  kinds_new :
      (db : Database) (ks : List Kind) (j : Kind) (tid : Bytes) (res : Resource) (s : Server C)
      → Any (λ k. j ≡ k) ks
      → stored db tid j ≡ some res
      → seen (refresh_kinds db tid ks s) j tid ≡ some res
  unfolding refresh_kinds
  kinds_new db [] j tid res s x d = elim x [ ]
  kinds_new db (k ∷ ks) j tid res s (inl e) d =
      kinds_keep db ks j tid tid res (refreshed k tid (stored db tid k) s) d
        (rw (← e) (seen_new db j tid res s d))
  kinds_new db (k ∷ ks) j tid res s (inr m) d =
      kinds_new db ks j tid res (refreshed k tid (stored db tid k) s) m d

  push_bundle-eq :
      (tid : Bytes) (r : Result Error (Option Bundle)) (s : Server C)
      → push_bundle api tid r s ≡ refreshed policy tid (bundle_resource tid r) s
  unfolding push_bundle refreshed bundle_resource
  push_bundle-eq tid (err e) s = refl
  push_bundle-eq tid (ok none) s = refl
  push_bundle-eq tid (ok (some b)) s = refl

  push_list-eq :
      {R : Type 0} (k : Kind) (tid : Bytes) (res : Bytes → ℕ → List R → Resource)
      (r : Result Error (List R)) (s : Server C)
      → push_list api k tid res r s ≡ refreshed k tid (list_resource tid res r) s
  unfolding push_list refreshed list_resource
  push_list-eq k tid res (err e) s = refl
  push_list-eq k tid res (ok rows) s = refl

  load_all-eq :
      (db : Database) (tid : Bytes) (s : Server C)
      → load_all api db tid s
        ≡ refresh_kinds db tid (policy ∷ revocation ∷ swg ∷ site ∷ fw ∷ dlp ∷ []) s
  unfolding load_all load_tenant load_revocations load_swg load_fw load_dlp load_sites refresh_kinds
      stored
  load_all-eq db tid s =
      let a = refreshed policy tid (bundle_resource tid (read_bundle db tid)) s in
      let b =
        refreshed revocation tid (list_resource tid revocation_list (read_revocations db tid)) a in
      let c = refreshed swg tid (list_resource tid swg_rule_set (read_swg db tid)) b in
      let d = refreshed site tid (list_resource tid site_config (read_sites db tid)) c in
      let e = refreshed fw tid (list_resource tid fw_rule_set (read_fw db tid)) d in
      rw
        (
          push_bundle-eq tid (read_bundle db tid) s,
          push_list-eq revocation tid revocation_list (read_revocations db tid) a,
          push_list-eq swg tid swg_rule_set (read_swg db tid) b,
          push_list-eq site tid site_config (read_sites db tid) c,
          push_list-eq fw tid fw_rule_set (read_fw db tid) d,
          push_list-eq dlp tid dlp_rule_set (read_dlp db tid) e,
        )
        refl

  any_kind : (j : Kind) → Any (λ k. j ≡ k) (policy ∷ revocation ∷ swg ∷ site ∷ fw ∷ dlp ∷ [])
  any_kind policy = inl refl
  any_kind revocation = inr (inl refl)
  any_kind swg = inr (inr (inl refl))
  any_kind site = inr (inr (inr (inl refl)))
  any_kind fw = inr (inr (inr (inr (inl refl))))
  any_kind dlp = inr (inr (inr (inr (inr (inl refl)))))

  reconcile_keep :
      (db : Database) (tids : List Bytes) (j : Kind) (other : Bytes) (res : Resource) (s : Server C)
      → stored db other j ≡ some res
      → seen s j other ≡ some res
      → seen (reconcile api db tids s) j other ≡ some res
  unfolding reconcile
  reconcile_keep db [] j other res s d h = h
  reconcile_keep db (tid ∷ tids) j other res s d h =
      reconcile_keep db tids j other res (load_all api db tid s) d
        (rw (load_all-eq db tid s) (kinds_keep db _ j tid other res s d h))

  reconcile_new :
      (db : Database) (tids : List Bytes) (j : Kind) (tid : Bytes) (res : Resource) (s : Server C)
      → Any (λ t. tid ≡ t) tids
      → stored db tid j ≡ some res
      → seen (reconcile api db tids s) j tid ≡ some res
  unfolding reconcile
  reconcile_new db [] j tid res s x d = elim x [ ]
  reconcile_new db (t ∷ tids) j tid res s (inl e) d =
      reconcile_keep db tids j tid res (load_all api db t s) d
        (rw (load_all-eq db t s, ← e) (kinds_new db _ j tid res s (any_kind j) d))
  reconcile_new db (t ∷ tids) j tid res s (inr m) d =
      reconcile_new db tids j tid res (load_all api db t s) m d

  tenants_of-has :
      (refs : Dict Bytes ℕ) (tid : Bytes) (n : ℕ)
      → get tid refs ≡ some n
      → Any (λ t. tid ≡ t) (tenants_of refs)
  unfolding tenants_of get
  tenants_of-has [] tid n h = absurd (cc)
  tenants_of-has ((t, m) ∷ refs) tid n h = elim (Bool-cases (beq t tid)) [
    | inl b ↦ inl (sym ((beq_iff t tid).0 b))
    | inr b ↦ inr (tenants_of-has refs tid n (rw b at h))
  ]

  -- After a reconciliation, whatever notifications were lost before it, the caches hold for every
  -- tenant with a subscriber what the database has for it, of every kind that can be read; and the
  -- subscriptions are as they were.
  pub reconcile_all-fresh :
      (db : Database) (s : Server C) (tid : Bytes) (n : ℕ) (k : Kind) (res : Resource)
      → get tid s.tenant_refs ≡ some n
      → stored db tid k ≡ some res
      → (laws.look_up (resource_name tid) ((reconcile_all api db s).caches k) ≡ some res)
        × SameSubs (reconcile_all api db s) s
  unfolding reconcile_all
  reconcile_all-fresh db s tid n k res g d = (
    reconcile_new db (tenants_of s.tenant_refs) k tid res s (tenants_of-has s.tenant_refs tid n g)
        d,
    reconcile-same api db (tenants_of s.tenant_refs) s,
  )
