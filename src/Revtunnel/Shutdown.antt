-- ===== src/Revtunnel/Shutdown.antt =====
-- What closing the multiplexer does to the streams of its table.
use sase.Prelude.{
  ℕ, zero, suc, ◌≡◌, ◌≢◌, refl, ap, arith, true, false, Bool-cases, inl, inr, List, [], ◌∷◌, Option,
  none, some, get_elem?, set, ◌==◌, ==_iff,
}
use mathlib.Core.Option.{some-injective}
use sase.Prelude.Bytes.{Bytes}
use sase.Prelude.Dict.{Dict, get, nat_key}
use sase.Prelude.Result.{err}
use sase.Revtunnel.Wire.{MuxError, mux_closed}
use sase.Revtunnel.Stream.{Stream, shut_down, waits, failure, read_channel, read}
use sase.Revtunnel.Mux.{
  MuxConn, remove_stream, set_stream, shut_at, shutdown, shutdown_all, close_conn, close_all,
  read_at, stream_read, open_stream,
}

get_elem?-set_same :
    (xs : List Stream) (i : ℕ) (s t : Stream)
    → get_elem? xs i ≡ some s
    → get_elem? (set xs i t) i ≡ some t
get_elem?-set_same [] i s t h = absurd (cc)
get_elem?-set_same (x ∷ xs) zero s t h = refl
get_elem?-set_same (x ∷ xs) (suc i) s t h = get_elem?-set_same xs i s t h

get_elem?-set_other :
    (xs : List Stream) (i j : ℕ) (t : Stream) → i ≢ j → get_elem? (set xs i t) j ≡ get_elem? xs j
get_elem?-set_other [] i j t n = refl
get_elem?-set_other (x ∷ xs) zero zero t n = absurd (n refl)
get_elem?-set_other (x ∷ xs) zero (suc j) t n = refl
get_elem?-set_other (x ∷ xs) (suc i) zero t n = refl
get_elem?-set_other (x ∷ xs) (suc i) (suc j) t n = get_elem?-set_other xs i j t (λ e. n (ap suc e))

-- The stream at r is there and shut down.
record IsDone (r : ℕ) (m : MuxConn) : Type 0 where
  stream : Stream
  there : get_elem? m.heap r ≡ some stream
  done : stream.done ≡ true

shut_down-done : (cause : MuxError) (s : Stream) → (shut_down cause s).done ≡ true
unfolding shut_down
shut_down-done cause s = elim (Bool-cases s.done) [ inl b ↦ simp b refl | inr b ↦ simp b refl ]

shut_at-IsDone :
    (r : ℕ) (cause : MuxError) (s : Stream) (m : MuxConn)
    → get_elem? m.heap r ≡ some s
    → IsDone r (shut_at r cause (some s) m)
unfolding shut_at remove_stream set_stream
shut_at-IsDone r cause s m e = elim (Bool-cases s.done) [
  | inl b ↦ simp b (record { stream = s; there = e; done = b })
  | inr b ↦ simp b (record {
    stream = shut_down cause s;
    there = get_elem?-set_same m.heap r s (shut_down cause s) e;
    done = shut_down-done cause s;
  })
]

shutdown-IsDone :
    (r : ℕ) (cause : MuxError) (s : Stream) (m : MuxConn)
    → get_elem? m.heap r ≡ some s
    → IsDone r (shutdown r cause m)
unfolding shutdown
shutdown-IsDone r cause s m e = rw e (shut_at-IsDone r cause s m e)

shut_at-other :
    (r j : ℕ) (cause : MuxError) (o : Option Stream) (m : MuxConn)
    → r ≢ j
    → get_elem? (shut_at r cause o m).heap j ≡ get_elem? m.heap j
unfolding shut_at remove_stream set_stream
shut_at-other r j cause none m n = refl
shut_at-other r j cause (some s) m n = elim (Bool-cases s.done) [
  | inl b ↦ simp b refl
  | inr b ↦ simp b (get_elem?-set_other m.heap r j (shut_down cause s) n)
]

shutdown-there :
    (r j : ℕ) (cause : MuxError) (s : Stream) (m : MuxConn)
    → get_elem? m.heap j ≡ some s
    → (t : Stream) × (get_elem? (shutdown r cause m).heap j ≡ some t)
shutdown-there r j cause s m e = elim (Bool-cases (r == j)) [
  | inl b ↦
      let same : r ≡ j = (==_iff r j).0 b in
      let d = shutdown-IsDone j cause s m e in (d.stream, rw same d.there)
  | inr b ↦ (
    s,
    unfold shutdown in
        rw (shut_at-other r j cause (get_elem? m.heap r) m (λ q. ground (arith, ==_iff r j, b, q)))
          e,
  )
]

shutdown-keeps :
    (r j : ℕ) (cause : MuxError) (m : MuxConn) → IsDone j m → IsDone j (shutdown r cause m)
shutdown-keeps r j cause m d = elim (Bool-cases (r == j)) [
  | inl b ↦
      let same : r ≡ j = (==_iff r j).0 b in rw same (shutdown-IsDone j cause d.stream m d.there)
  | inr b ↦ record {
    stream = d.stream;
    there =
        unfold shutdown in
        rw (shut_at-other r j cause (get_elem? m.heap r) m (λ q. ground (arith, ==_iff r j, b, q)))
          d.there;
    done = d.done;
  }
]

shutdown_all-keeps :
    (victims : Dict ℕ ℕ) (j : ℕ) (cause : MuxError) (m : MuxConn)
    → IsDone j m
    → IsDone j (shutdown_all victims cause m)
unfolding shutdown_all
shutdown_all-keeps [] j cause m d = d
shutdown_all-keeps ((id, r) ∷ victims) j cause m d =
    shutdown_all-keeps victims j cause (shutdown r cause m) (shutdown-keeps r j cause m d)

shutdown_all-IsDone :
    (victims : Dict ℕ ℕ) (id r : ℕ) (cause : MuxError) (s : Stream) (m : MuxConn)
    → get id victims ≡ some r
    → get_elem? m.heap r ≡ some s
    → IsDone r (shutdown_all victims cause m)
unfolding shutdown_all get
shutdown_all-IsDone [] id r cause s m g e = absurd (cc)
shutdown_all-IsDone ((i, q) ∷ victims) id r cause s m g e = elim (Bool-cases (nat_key.same i id)) [
  | inl b ↦
      let this : q ≡ r = some-injective q r (rw b at g) in
      shutdown_all-keeps victims r cause (shutdown q cause m)
        (rw this (shutdown-IsDone r cause s m e))
  | inr b ↦
      let t = shutdown-there q r cause s m e in
      shutdown_all-IsDone victims id r cause t.0 (shutdown q cause m) (rw b at g) t.1
]

shut_at-closed :
    (r : ℕ) (cause : MuxError) (o : Option Stream) (m : MuxConn)
    → (shut_at r cause o m).closed ≡ m.closed
unfolding shut_at remove_stream set_stream
shut_at-closed r cause none m = refl
shut_at-closed r cause (some s) m = elim (Bool-cases s.done) [
  | inl b ↦ simp b refl
  | inr b ↦ simp b refl
]

shutdown_all-closed :
    (victims : Dict ℕ ℕ) (cause : MuxError) (m : MuxConn)
    → (shutdown_all victims cause m).closed ≡ m.closed
unfolding shutdown_all shutdown
shutdown_all-closed [] cause m = refl
shutdown_all-closed ((id, r) ∷ victims) cause m =
    rw (shutdown_all-closed victims cause (shutdown r cause m))
      (shut_at-closed r cause (get_elem? m.heap r) m)

read-done : (n : ℕ) (s : Stream) → s.done ≡ true → (read n s).0 ≢ waits
unfolding read read_channel failure
read-done n s d = ground arith

-- When the multiplexer closes, no reader of a stream in its table waits any longer, and no stream is
-- opened any more.
pub close_all-wakes :
    (m : MuxConn) (cause : MuxError) (id r n : ℕ) (s : Stream) (dst : Bytes)
    → m.closed ≡ false
    → get id m.streams ≡ some r
    → get_elem? m.heap r ≡ some s
    → ((stream_read r n (close_all cause m)).0 ≢ waits)
      × ((open_stream dst (close_all cause m)).0 ≡ err mux_closed)
unfolding close_all close_conn stream_read read_at open_stream
close_all-wakes m cause id r n s dst c g e =
    let start = record m { closed = true; streams = [] } in
    let d = shutdown_all-IsDone m.streams id r cause s start g e in
    (
      simp (c, d.there) (read-done n d.stream d.done),
      simp (c, shutdown_all-closed m.streams cause start) refl,
    )
