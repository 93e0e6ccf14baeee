-- ===== src/Xds/Eviction.antt =====
-- What the caches hold after the last subscriber of a tenant left, and after a reconciliation.
use sase.Prelude.{
  ℕ, ◌-◌, ◌≡◌, refl, arith, true, false, Bool-cases, inl, inr, Option, none, some, [], ◌∷◌,
  if◌then◌else◌,
}
use sase.Prelude.Bytes.{Bytes, beq, beq_iff, beq_refl}
use sase.Prelude.Dict.{get, del, get-put, get-del, nat_key, bytes_key}
use sase.Xds.Auth.{StreamAuth, Names, named, is_some}
use sase.Xds.Resources.{Kind, Resource}
use sase.Xds.Server.{
  CacheApi, Server, new_server, resource_name, ref_count, release, release_all, evict_tenant,
  closed, on_delta_stream_closed,
}
use sase.Xds.Counts.{subscribers, positive}
use sase.Xds.Steps.{Reach, Reach-counts}

-- What a LinearCache is relied on for: to look a resource up after an update or a deletion, where the
-- updates of resources that are not nil do not fail.
pub record CacheLaws {C : Type 0} (api : CacheApi C) : Type 0 where
  pub look_up : Bytes → C → Option Resource
  pub look_up-delete :
      (name other : Bytes) (c : C)
      → look_up other (api.delete_resource name c)
        ≡ (if beq name other then none else look_up other c)
  pub update_ok :
      (name : Bytes) (res : Resource) (c : C) → (d : C) × (api.update_resource name res c ≡ some d)
  pub look_up-update :
      (name other : Bytes) (res : Resource) (c d : C)
      → api.update_resource name res c ≡ some d
      → look_up other d ≡ (if beq name other then some res else look_up other c)

module _ {C : Type 0} (api : CacheApi C) (laws : CacheLaws api) where
  abbrev Evicted : Bytes → Server C → Type 0
  Evicted tid s = (k : Kind) → laws.look_up (resource_name tid) (s.caches k) ≡ none

  Evicted-here :
      (tid : Bytes) (s : Server C)
      → get tid s.tenant_refs ≡ some 1
      → Evicted tid (release api tid s)
  unfolding release ref_count evict_tenant
  Evicted-here tid s e k = rw e (
      ground (
        arith,
        laws.look_up-delete (resource_name tid) (resource_name tid) (s.caches k),
        beq_refl (resource_name tid),
      ))

  Evicted-still : (tid j : Bytes) (s : Server C) → Evicted j s → Evicted j (release api tid s)
  unfolding release evict_tenant
  Evicted-still tid j s h k =
      ground (arith, h k, laws.look_up-delete (resource_name tid) (resource_name j) (s.caches k))

  Evicted-after :
      (tids : Names) (j : Bytes) (s : Server C) → Evicted j s → Evicted j (release_all api tids s)
  unfolding release_all
  Evicted-after [] j s h = h
  Evicted-after ((tid, u) ∷ tids) j s h =
      Evicted-after tids j (release api tid s) (Evicted-still tid j s h)

  others_kept :
      (tid j : Bytes) (s : Server C)
      → beq tid j ≡ false
      → get j (release api tid s).tenant_refs ≡ get j s.tenant_refs
  unfolding release evict_tenant
  others_kept tid j s n = ground (
    arith,
    n,
    get-put tid j (ref_count (get tid s.tenant_refs) - 1) s.tenant_refs,
    get-del tid j s.tenant_refs,
  )

  release_all-evicts :
      (tids : Names) (j : Bytes) (s : Server C)
      → named j tids ≡ true
      → get j s.tenant_refs ≡ some 1
      → Evicted j (release_all api tids s)
  unfolding release_all named is_some get
  release_all-evicts [] j s n e = absurd (cc)
  release_all-evicts ((tid, u) ∷ tids) j s n e = elim (Bool-cases (beq tid j)) [
    | inl b ↦
        let this : tid ≡ j = (beq_iff tid j).0 b in
        Evicted-after tids j (release api tid s) (rw this (Evicted-here j s e))
    | inr b ↦
        release_all-evicts tids j (release api tid s) (rw b at n) (rw (others_kept tid j s b) e)
  ]

  -- When the last stream that subscribes to a tenant closes, in whatever state the calls so far
  -- brought the server to, none of the six caches holds the tenant's resource any more.
  pub closed-evicts :
      (s : Server C) (id : ℕ) (sa : StreamAuth) (tid : Bytes)
      → Reach api (new_server api) s
      → get id s.streams ≡ some sa
      → named tid sa.tenants ≡ true
      → subscribers tid s.streams ≡ 1
      → (k : Kind)
      → laws.look_up (resource_name tid) ((on_delta_stream_closed api id s).caches k) ≡ none
  unfolding on_delta_stream_closed closed
  closed-evicts s id sa tid r e n one =
      let alone : get tid s.tenant_refs ≡ some 1 =
        rw (Reach-counts api s tid r, one) (unfold positive in refl) in
      rw e (release_all-evicts sa.tenants tid (record s { streams = del id s.streams }) n alone)
