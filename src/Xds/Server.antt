-- ===== src/Xds/Server.antt =====
-- internal/xds/server.go: the streams, their subscriptions and the six caches. The caches of
-- go-control-plane are a parameter; a mutex makes each call one step, and log lines are left out.
use sase.Prelude.{
  ℕ, ◌+◌, ◌-◌, Bool, false, List, [], ◌∷◌, ◌++◌, Option, none, some, if◌then◌else◌, length, ltb,
  leb, drop, ◌&&◌,
}
use sase.Prelude.Bytes.{Bytes, bytes, has_prefix}
use sase.Prelude.Dict.{Dict, get, put, del, nat_key, bytes_key}
use sase.Prelude.Result.{Result, ok, err}
use sase.Xds.Auth.{StreamAuth, Leaf, named, peer_cert_identity}
use sase.Xds.Resources.{
  Kind, policy, revocation, swg, site, fw, dlp, same_kind, Resource, policy_bundle, revocation_list,
  swg_rule_set, site_config, fw_rule_set, dlp_rule_set, Error, Bundle, Database, read_swg, read_fw,
  read_dlp, read_sites, read_revocations, read_bundle,
}

-- A LinearCache: `none` is an error of UpdateResource, which leaves the cache as it was. The type
-- URLs come from generated code.
pub record CacheApi (C : Type 0) : Type 0 where
  pub type_url : Kind → Bytes
  pub new_cache : Bytes → C
  pub update_resource : Bytes → Resource → C → Option C
  pub delete_resource : Bytes → C → C

-- `caches` has policyCache, revCache and so on; `pushes` is what the recorder counts.
pub record Server (C : Type 0) : Type 0 where
  pub caches : Kind → C
  pub pushes : Kind → ℕ
  pub strict_sub_auth : Bool
  pub streams : Dict ℕ StreamAuth
  pub tenant_refs : Dict Bytes ℕ

abbrev pub name_prefix : Bytes
name_prefix = bytes "tenant/"

unfoldable pub resource_name : Bytes → Bytes
resource_name tenant_id = name_prefix ++ tenant_id

unfoldable pub tenant_from_name : Bytes → Bytes
tenant_from_name name =
    if ltb (length name_prefix) (length name) && has_prefix name name_prefix
    then drop (length name_prefix) name
    else []

-- s.streams.Store and the like on one entry.
unfoldable pub with_stream : {C : Type 0} → ℕ → StreamAuth → Server C → Server C
with_stream id sa s = record s { streams = put id sa s.streams }

unfoldable pub no_identity : StreamAuth
no_identity = record {
  role = [];
  cert_tenant = [];
  has_cert = false;
  tenants = [];
  named_types = [];
}

unfoldable pub ref_count : Option ℕ → ℕ
ref_count none = 0
ref_count (some n) = n

module _ {C : Type 0} (api : CacheApi C) where
  unfoldable pub new_server : Server C
  new_server = record {
    caches = λ k. api.new_cache (api.type_url k);
    pushes = λ k. 0;
    strict_sub_auth = false;
    streams = [];
    tenant_refs = [];
  }

  unfoldable pub set_strict_sub_auth : Bool → Server C → Server C
  set_strict_sub_auth strict s = record s { strict_sub_auth = strict }

  -- What UpdateResource leads to: the cache and the count of pushes, or nothing on an error.
  unfoldable pub pushed : Kind → Option C → Server C → Server C
  pushed k none s = s
  pushed k (some c) s = record s {
    caches = λ j. if same_kind k j then c else s.caches j;
    pushes = λ j. if same_kind k j then s.pushes j + 1 else s.pushes j;
  }

  unfoldable pub push : Kind → Bytes → Resource → Server C → Server C
  push k tenant_id res s =
      pushed k (api.update_resource (resource_name tenant_id) res (s.caches k)) s

  unfoldable pub push_bundle : Bytes → Result Error (Option Bundle) → Server C → Server C
  push_bundle tenant_id (err e) s = s
  push_bundle tenant_id (ok none) s = s
  push_bundle tenant_id (ok (some b)) s =
      push policy tenant_id (policy_bundle tenant_id b.version b.compiled) s

  unfoldable pub push_list :
      {R : Type 0}
      → Kind
      → Bytes
      → (Bytes → ℕ → List R → Resource)
      → Result Error (List R)
      → Server C
      → Server C
  push_list k tenant_id res (err e) s = s
  push_list k tenant_id res (ok rows) s = push k tenant_id (res tenant_id (length rows) rows) s

  unfoldable pub load_tenant : Database → Bytes → Server C → Server C
  load_tenant db tenant_id s = push_bundle tenant_id (read_bundle db tenant_id) s

  unfoldable pub load_revocations : Database → Bytes → Server C → Server C
  load_revocations db tenant_id s =
      push_list revocation tenant_id revocation_list (read_revocations db tenant_id) s

  unfoldable pub load_swg : Database → Bytes → Server C → Server C
  load_swg db tenant_id s = push_list swg tenant_id swg_rule_set (read_swg db tenant_id) s

  unfoldable pub load_fw : Database → Bytes → Server C → Server C
  load_fw db tenant_id s = push_list fw tenant_id fw_rule_set (read_fw db tenant_id) s

  unfoldable pub load_dlp : Database → Bytes → Server C → Server C
  load_dlp db tenant_id s = push_list dlp tenant_id dlp_rule_set (read_dlp db tenant_id) s

  unfoldable pub load_sites : Database → Bytes → Server C → Server C
  load_sites db tenant_id s = push_list site tenant_id site_config (read_sites db tenant_id) s

  unfoldable pub evict_tenant : Bytes → Server C → Server C
  evict_tenant tid s = record s {
    caches = λ k. api.delete_resource (resource_name tid) (s.caches k);
  }

  unfoldable pub on_delta_stream_open : ℕ → Option (List Leaf) → Server C → Server C
  on_delta_stream_open id peer s =
      let who = peer_cert_identity peer in
      with_stream id
        (record {
          role = who.role;
          cert_tenant = who.cert_tenant;
          has_cert = who.has_cert;
          tenants = [];
          named_types = [];
        })
        s

  -- One round of the loop over the tenants of a closed stream.
  unfoldable pub release : Bytes → Server C → Server C
  release tid s =
      let n = ref_count (get tid s.tenant_refs) in
      if leb n 1
      then evict_tenant tid (record s { tenant_refs = del tid s.tenant_refs })
      else record s { tenant_refs = put tid (n - 1) s.tenant_refs }

  unfoldable pub release_all : Dict Bytes (Unit {0}) → Server C → Server C
  release_all [] s = s
  release_all ((tid, u) ∷ tids) s = release_all tids (release tid s)

  unfoldable pub closed : ℕ → Option StreamAuth → Server C → Server C
  closed id none s = s
  closed id (some sa) s = release_all sa.tenants (record s { streams = del id s.streams })

  unfoldable pub on_delta_stream_closed : ℕ → Server C → Server C
  on_delta_stream_closed id s = closed id (get id s.streams) s

  unfoldable pub registered : ℕ → Option StreamAuth → Server C → StreamAuth × Server C
  registered id none s = (no_identity, with_stream id no_identity s)
  registered id (some sa) s = (sa, s)

  unfoldable pub auth_for : ℕ → Server C → StreamAuth × Server C
  auth_for id s = registered id (get id s.streams) s

  -- recordRef writes to the stream's entry, which the caller holds too.
  unfoldable pub record_ref : ℕ → StreamAuth → Bytes → Bytes → Server C → StreamAuth × Server C
  record_ref id sa tid type_url s =
      let typed = record sa { named_types = put type_url tt sa.named_types } in
      let counted = record typed { tenants = put tid tt typed.tenants } in
      let n = ref_count (get tid s.tenant_refs) in
      if named tid sa.tenants then (typed, with_stream id typed s) else (
        counted,
        with_stream id counted (record s { tenant_refs = put tid (n + 1) s.tenant_refs }),
      )
