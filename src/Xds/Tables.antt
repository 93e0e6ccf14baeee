-- ===== src/Xds/Tables.antt =====
-- The tables of streams and of counts, as single entries change.
use sase.Prelude.{
  ℕ, zero, suc, ◌+◌, ◌≡◌, refl, arith, true, false, Bool-cases, inl, inr, none, some, [],
  if◌then◌else◌,
}
use sase.Prelude.Bytes.{Bytes, beq, beq_iff}
use sase.Prelude.Dict.{
  Holds, put-Holds, Dict, get, put, get-put, IsKeyed, put-IsKeyed, nat_key, bytes_key,
}
use sase.Xds.Auth.{StreamAuth, Names, named, is_some}
use sase.Xds.Server.{ref_count}
use sase.Xds.Counts.{
  bit, held, subscribers, positive, ref_count-positive, subscribers-put, lower, lower-positive,
}

abbrev pub TenantsKeyed : StreamAuth → Type 0
TenantsKeyed sa = IsKeyed sa.tenants

-- One entry per stream, one per tenant of a stream, and each tenant's count is the number of streams
-- that subscribe to it; tenants without any have no entry.
unfoldable pub Counted : Dict ℕ StreamAuth → Dict Bytes ℕ → Type 0
Counted streams refs =
    IsKeyed streams
    × Holds TenantsKeyed streams
    × ((tid : Bytes) → get tid refs ≡ positive (subscribers tid streams))

pub held-some :
    (tid : Bytes) (id : ℕ) (sa : StreamAuth) (m : Dict ℕ StreamAuth)
    → get id m ≡ some sa
    → held tid (get id m) ≡ bit (named tid sa.tenants)
unfolding held
held-some tid id sa m e = rw e refl

-- A stream that comes new, with nothing subscribed.
pub put_new-Counted :
    (id : ℕ) (sa : StreamAuth) (streams : Dict ℕ StreamAuth) (refs : Dict Bytes ℕ)
    → get id streams ≡ none
    → sa.tenants ≡ []
    → Counted streams refs
    → Counted (put id sa streams) refs
unfolding Counted held bit named is_some get
put_new-Counted id sa streams refs e t h = (
  put-IsKeyed id sa streams h.0,
  put-Holds TenantsKeyed id sa streams h.1 (rw t tt),
  λ tid.
      let k = subscribers-put tid id sa streams in
      let before : held tid (get id streams) ≡ 0 = rw e refl in
      let after : bit (named tid sa.tenants) ≡ 0 = rw t refl in
      let same : subscribers tid (put id sa streams) ≡ subscribers tid streams =
        omega (arith, k, before, after) in
      rw same (h.2 tid),
)

-- The entry of a stream replaced by one with the same tenants.
pub put_same-Counted :
    (id : ℕ) (sa sb : StreamAuth) (streams : Dict ℕ StreamAuth) (refs : Dict Bytes ℕ)
    → get id streams ≡ some sb
    → sa.tenants ≡ sb.tenants
    → Counted streams refs
    → Counted (put id sa streams) refs
unfolding Counted Holds
put_same-Counted id sa sb streams refs e t h = (
  put-IsKeyed id sa streams h.0,
  put-Holds TenantsKeyed id sa streams h.1 (rw t (h.1 id sb e)),
  λ tid.
      let k = subscribers-put tid id sa streams in
      let g = held-some tid id sb streams e in
      let q : bit (named tid sa.tenants) ≡ bit (named tid sb.tenants) = rw t refl in
      let same : subscribers tid (put id sa streams) ≡ subscribers tid streams =
        omega (arith, k, g, q) in
      rw same (h.2 tid),
)

pub named-put :
    (tid j : Bytes) (tids : Names)
    → named j (put tid tt tids) ≡ (if beq tid j then true else named j tids)
unfolding named is_some
named-put tid j tids = ground (arith, get-put tid j tt tids)

positive_suc : (m n : ℕ) → m ≡ n + 1 → some (n + 1) ≡ positive m
unfolding positive
positive_suc zero n e = absurd (omega arith)
positive_suc (suc m) n e = rw e refl

-- A stream takes a tenant that it did not subscribe to, and the tenant's count goes up by one.
pub put_more-Counted :
    (id : ℕ) (sa sb : StreamAuth) (tid : Bytes) (streams : Dict ℕ StreamAuth) (refs : Dict Bytes ℕ)
    → get id streams ≡ some sb
    → sa.tenants ≡ put tid tt sb.tenants
    → named tid sb.tenants ≡ false
    → Counted streams refs
    → Counted (put id sa streams) (put tid (ref_count (get tid refs) + 1) refs)
unfolding Counted Holds bit
put_more-Counted id sa sb tid streams refs e t f h = (
  put-IsKeyed id sa streams h.0,
  put-Holds TenantsKeyed id sa streams h.1 (rw t (put-IsKeyed tid tt sb.tenants (h.1 id sb e))),
  λ j.
      let k = subscribers-put j id sa streams in
      let g = held-some j id sb streams e in
      let n = h.2 j in
      let q : bit (named j sa.tenants) ≡ bit (if beq tid j then true else named j sb.tenants) =
        rw (t, named-put tid j sb.tenants) refl in
      elim (Bool-cases (beq tid j)) [
        | inl b ↦
            let this : tid ≡ j = (beq_iff tid j).0 b in
            let taken : bit (named j sa.tenants) ≡ 1 = rw (q, b) refl in
            let free : bit (named j sb.tenants) ≡ 0 = rw (← this, f) refl in
            let count : ref_count (get tid refs) ≡ subscribers j streams =
              rw (this, n) (ref_count-positive (subscribers j streams)) in
            let more : subscribers j (put id sa streams) ≡ subscribers j streams + 1 =
              omega (arith, k, g, taken, free) in
            rw (get-put tid j (ref_count (get tid refs) + 1) refs, b, count)
              (positive_suc (subscribers j (put id sa streams)) (subscribers j streams) more)
        | inr b ↦
            let q' : bit (named j sa.tenants) ≡ bit (named j sb.tenants) = rw b at q in
            let same : subscribers j (put id sa streams) ≡ subscribers j streams =
              omega (arith, k, g, q') in
            rw (get-put tid j (ref_count (get tid refs) + 1) refs, b, same) n
      ],
)

pub lower-positive_at : (m n : ℕ) → m ≡ n + 1 → lower (positive m) ≡ positive n
lower-positive_at zero n e = absurd (omega arith)
lower-positive_at (suc m) n e = let same : m ≡ n = omega arith in rw (← same) (lower-positive m)
