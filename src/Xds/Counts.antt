-- ===== src/Xds/Counts.antt =====
-- The count kept for each tenant against the streams that subscribe to it.
use sase.Prelude.{
  ℕ, zero, suc, ◌+◌, ◌-◌, ◌≡◌, refl, arith, Bool, true, false, Bool-cases, inl, inr, Option, none,
  some, [], ◌∷◌, if◌then◌else◌, leb, ==_iff,
}
use sase.Prelude.Bytes.{Bytes, beq, beq_iff}
use sase.Prelude.Dict.{
  Dict, get, put, del, get-put, get-del, IsKeyed, del-absent, nat_key, bytes_key,
}
use sase.Xds.Auth.{StreamAuth, Names, named, is_some}
use sase.Xds.Server.{CacheApi, Server, ref_count, release, release_all, evict_tenant}

unfoldable pub bit : Bool → ℕ
bit true = 1
bit false = 0

-- Whether a stream, if it is there, subscribes to a tenant.
unfoldable pub held : Bytes → Option StreamAuth → ℕ
held tid none = 0
held tid (some sa) = bit (named tid sa.tenants)

-- The number of streams that subscribe to a tenant.
unfoldable pub subscribers : Bytes → Dict ℕ StreamAuth → ℕ
subscribers tid [] = 0
subscribers tid ((id, sa) ∷ streams) = bit (named tid sa.tenants) + subscribers tid streams

unfoldable pub positive : ℕ → Option ℕ
positive zero = none
positive (suc n) = some (suc n)

pub ref_count-positive : (n : ℕ) → ref_count (positive n) ≡ n
unfolding ref_count positive
ref_count-positive zero = refl
ref_count-positive (suc n) = refl

pub subscribers-put :
    (tid : Bytes) (id : ℕ) (sa : StreamAuth) (m : Dict ℕ StreamAuth)
    → subscribers tid (put id sa m) + held tid (get id m)
      ≡ subscribers tid m + bit (named tid sa.tenants)
unfolding subscribers put get held
subscribers-put tid id sa [] = omega arith
subscribers-put tid id sa ((j, sb) ∷ m) =
    let rest = subscribers-put tid id sa m in
    elim (Bool-cases (nat_key.same j id)) [
      | inl e ↦ rw e (omega arith)
      | inr e ↦ rw e (omega (arith, rest))
    ]

pub subscribers-del :
    (tid : Bytes) (id : ℕ) (m : Dict ℕ StreamAuth)
    → IsKeyed m
    → subscribers tid (del id m) + held tid (get id m) ≡ subscribers tid m
unfolding subscribers del get held
subscribers-del tid id [] h = refl
subscribers-del tid id ((j, sb) ∷ m) h =
    let rest = subscribers-del tid id m h.1 in
    elim (Bool-cases (nat_key.same j id)) [
      | inl e ↦
          let same : j ≡ id = (==_iff j id).0 e in
          let absent : get id m ≡ none = rw (← same) h.0 in
          let old : subscribers tid (del id m) ≡ subscribers tid m =
            rw (del-absent id m absent) refl in
          rw e (omega (arith, old))
      | inr e ↦ rw e (omega (arith, rest))
    ]

-- What the end of one subscription does to a count.
unfoldable pub lower : Option ℕ → Option ℕ
lower none = none
lower (some n) = if leb n 1 then none else some (n - 1)

pub lower-positive : (n : ℕ) → lower (positive (suc n)) ≡ positive n
unfolding lower positive
lower-positive zero = refl
lower-positive (suc n) = ground arith

module _ {C : Type 0} (api : CacheApi C) where
  release-refs :
      (tid j : Bytes) (s : Server C)
      → get j (release api tid s).tenant_refs
        ≡ (if beq tid j then lower (get j s.tenant_refs) else get j s.tenant_refs)
  unfolding release lower ref_count evict_tenant
  release-refs tid j s = ground (
    arith,
    get-put tid j (ref_count (get tid s.tenant_refs) - 1) s.tenant_refs,
    get-del tid j s.tenant_refs,
    beq_iff tid j,
  )

  pub release_all-refs :
      (tids : Names) (j : Bytes) (s : Server C)
      → IsKeyed tids
      → get j (release_all api tids s).tenant_refs
        ≡ (if named j tids then lower (get j s.tenant_refs) else get j s.tenant_refs)
  unfolding release_all named is_some get
  release_all-refs [] j s h = refl
  release_all-refs ((tid, u) ∷ tids) j s h = ground (
    arith,
    release-refs tid j s,
    release_all-refs tids j (release api tid s),
    h.0,
    h.1,
    beq_iff tid j,
  )

  pub release_all-streams :
      (tids : Names) (s : Server C) → (release_all api tids s).streams ≡ s.streams
  unfolding release_all release evict_tenant
  release_all-streams [] s = refl
  release_all-streams ((tid, u) ∷ tids) s =
      ground (arith, release_all-streams tids (release api tid s))
