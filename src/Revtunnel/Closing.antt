-- ===== src/Revtunnel/Closing.antt =====
-- When a stream's reader learns that the peer has closed.
use sase.Prelude.{
  ℕ, zero, suc, ◌≤◌, ◌≡◌, refl, arith, Bool, true, false, Bool-cases, inl, inr, List, [], ◌∷◌, ◌++◌,
  Option, none, some, length, take, All, ltb, if◌then◌else◌,
}
use mathlib.Core.List.{append-nil}
use sase.Prelude.Bytes.{Bytes}
use sase.Revtunnel.Stream.{
  Stream, stream_read_buf, has_room, enqueue, remote_close, got, eof, waits, read_inbound,
  read_channel, read,
}
use sase.Revtunnel.Reading.{result_bytes}

-- A stream that is neither reset nor shut down, of which no chunk was read in part.
unfoldable pub idle : ℕ → Bool → Bool → List (Option Bytes) → Stream
idle id local_done remote_eof inbound = record {
  id = id;
  inbound = inbound;
  read_buf = [];
  remote_eof = remote_eof;
  reset_err = none;
  local_done = local_done;
  done = false;
}

unfoldable pub some_chunks : List Bytes → List (Option Bytes)
some_chunks [] = []
some_chunks (c ∷ cs) = some c ∷ some_chunks cs

unfoldable pub concat_chunks : List Bytes → Bytes
concat_chunks [] = []
concat_chunks (c ∷ cs) = c ++ concat_chunks cs

-- k reads into a buffer of n bytes, with the bytes that they return.
unfoldable pub reads : ℕ → ℕ → Stream → Bytes × Stream
reads n zero s = ([], s)
reads n (suc k) s =
    let (result, t) = read n s in let (more, u) = reads n k t in (result_bytes result ++ more, u)

take_short : (n : ℕ) (c : Bytes) → length c ≤ n → take n c ≡ c
take_short zero [] h = refl
take_short zero (x ∷ c) h = absurd (omega arith)
take_short (suc n) [] h = refl
take_short (suc n) (x ∷ c) h = ground (arith, take_short n c)

not_longer : (n : ℕ) (c : Bytes) → length c ≤ n → ltb n (length c) ≡ false
not_longer n c h = ground arith

read-idle :
    (n id : ℕ) (local_done remote_eof : Bool) (c : Bytes) (chunks : List (Option Bytes))
    → length c ≤ n
    → read n (idle id local_done remote_eof (some c ∷ chunks))
      ≡ (got c, idle id local_done remote_eof chunks)
unfolding read read_channel read_inbound idle
read-idle n id l r c chunks h = rw (take_short n c h, not_longer n c h) refl

reads-idle :
    (n id : ℕ) (local_done remote_eof : Bool) (cs : List Bytes) (tail : List (Option Bytes))
    → All (λ c. length c ≤ n) cs
    → reads n (length cs) (idle id local_done remote_eof (some_chunks cs ++ tail))
      ≡ (concat_chunks cs, idle id local_done remote_eof tail)
unfolding reads some_chunks concat_chunks
reads-idle n id l r [] tail h = refl
reads-idle n id l r (c ∷ cs) tail h =
    rw (read-idle n id l r c (some_chunks cs ++ tail) h.0, reads-idle n id l r cs tail h.1)
      (unfold result_bytes in refl)

length-some_chunks : (cs : List Bytes) → length (some_chunks cs) ≡ length cs
unfolding some_chunks
length-some_chunks [] = refl
length-some_chunks (c ∷ cs) = ground (arith, length-some_chunks cs)

-- The channel after a CLOSE.
sentinel : ℕ → List (Option Bytes)
sentinel queued = if ltb queued stream_read_buf then none ∷ [] else []

remote_close-idle :
    (id : ℕ) (l : Bool) (cs : List Bytes)
    → remote_close (idle id l false (some_chunks cs))
      ≡ idle id l true (some_chunks cs ++ sentinel (length cs))
unfolding remote_close has_room enqueue idle sentinel
remote_close-idle id l cs = elim (Bool-cases (ltb (length cs) stream_read_buf)) [
  | inl b ↦ rw (length-some_chunks cs, b) refl
  | inr b ↦ rw (length-some_chunks cs, b, append-nil (some_chunks cs)) refl
]

read-sentinel :
    (n id : ℕ) (l : Bool) (queued : ℕ)
    → (read n (idle id l true (sentinel queued))).0
      ≡ (if ltb queued stream_read_buf then eof else waits)
unfolding read read_channel read_inbound idle sentinel
read-sentinel n id l queued = elim (Bool-cases (ltb queued stream_read_buf)) [
  | inl b ↦ rw b refl
  | inr b ↦ rw b refl
]

-- When the peer's CLOSE comes while chunks wait in the channel, the reader first gets all their
-- bytes; then it gets the end of the stream if there were fewer than 64 of them, and waits if the
-- channel was full.
pub remote_close-reads :
    (n id : ℕ) (local_done : Bool) (cs : List Bytes)
    → All (λ c. length c ≤ n) cs
    → ((reads n (length cs) (remote_close (idle id local_done false (some_chunks cs)))).0
        ≡ concat_chunks cs)
      × ((read n
            (reads n (length cs) (remote_close (idle id local_done false (some_chunks cs)))).1).0
          ≡ (if ltb (length cs) stream_read_buf then eof else waits))
remote_close-reads n id l cs h =
    rw (remote_close-idle id l cs, reads-idle n id l true cs (sentinel (length cs)) h)
      (refl, read-sentinel n id l (length cs))
