-- ===== src/Revtunnel/Reading.antt =====
-- What a stream's reader gets: the bytes delivered, in their order, and then the end.
use sase.Prelude.{
  ℕ, zero, suc, ◌≡◌, refl, sym, ap, ◌∙◌, arith, true, Bool-cases, inl, inr, List, [], ◌∷◌, ◌++◌,
  Option, none, some, length, take, drop, ltb, is_empty, if◌then◌else◌, take-append-drop,
}
use mathlib.Core.List.{append_assoc, append-nil}
use sase.Prelude.Bytes.{Bytes}
use sase.Revtunnel.Wire.{MuxError}
use sase.Revtunnel.Stream.{
  Stream, has_room, enqueue, deliver, ReadResult, got, eof, failed, waits, failure, read_inbound,
  read_channel, read,
}

-- The bytes of the chunks that wait in the channel.
unfoldable pub chunks_bytes : List (Option Bytes) → Bytes
chunks_bytes [] = []
chunks_bytes (none ∷ chunks) = chunks_bytes chunks
chunks_bytes (some chunk ∷ chunks) = chunk ++ chunks_bytes chunks

-- The bytes that a stream has still to hand to its reader.
unfoldable pub pending : Stream → Bytes
pending s = s.read_buf ++ chunks_bytes s.inbound

unfoldable pub result_bytes : ReadResult → Bytes
result_bytes (got b) = b
result_bytes eof = []
result_bytes (failed e) = []
result_bytes waits = []

chunks_bytes-append :
    (xs ys : List (Option Bytes)) → chunks_bytes (xs ++ ys) ≡ chunks_bytes xs ++ chunks_bytes ys
unfolding chunks_bytes
chunks_bytes-append [] ys = refl
chunks_bytes-append (none ∷ xs) ys = chunks_bytes-append xs ys
chunks_bytes-append (some c ∷ xs) ys =
    rw (chunks_bytes-append xs ys, append_assoc c (chunks_bytes xs) (chunks_bytes ys)) refl

one_chunk : (c : Bytes) → chunks_bytes (some c ∷ []) ≡ c
unfolding chunks_bytes
one_chunk c = append-nil c

-- A chunk that is delivered where there is room comes after all that is pending.
pub deliver-pending :
    (p : Bytes) (s : Stream) → has_room s ≡ true → pending (deliver p s).1 ≡ pending s ++ p
unfolding deliver enqueue pending
deliver-pending [] s h = rw (append-nil (s.read_buf ++ chunks_bytes s.inbound)) refl
deliver-pending (x ∷ p) s h =
    rw
      (
        h,
        chunks_bytes-append s.inbound (some (x ∷ p) ∷ []),
        one_chunk (x ∷ p),
        append_assoc s.read_buf (chunks_bytes s.inbound) (x ∷ p),
      )
      refl

rest_of_chunk :
    (n : ℕ) (chunk : Bytes) → (if ltb n (length chunk) then drop n chunk else []) ≡ drop n chunk
rest_of_chunk zero [] = refl
rest_of_chunk zero (x ∷ c) = ground arith
rest_of_chunk (suc n) [] = ground arith
rest_of_chunk (suc n) (x ∷ c) = ground (arith, rest_of_chunk n c)

read_inbound-pending :
    (n : ℕ) (chunks : List (Option Bytes)) (s : Stream)
    → s.read_buf ≡ []
    → result_bytes (read_inbound n chunks s).0 ++ pending (read_inbound n chunks s).1
      ≡ chunks_bytes chunks
unfolding read_inbound pending chunks_bytes result_bytes
read_inbound-pending n [] s e = ground arith
read_inbound-pending n (none ∷ []) s e = elim (Bool-cases s.remote_eof) [
  | inl b ↦ rw (b, e) refl
  | inr b ↦ rw (b, e) refl
]
read_inbound-pending n (none ∷ c ∷ chunks) s e = elim (Bool-cases s.remote_eof) [
  | inl b ↦ simp b (read_inbound-pending n (c ∷ chunks) s e)
  | inr b ↦ simp b (read_inbound-pending n (c ∷ chunks) s e)
]
read_inbound-pending n (some chunk ∷ chunks) s e =
    rw
      (
        e,
        rest_of_chunk n chunk,
        ← (append_assoc (take n chunk) (drop n chunk) (chunks_bytes chunks)),
        take-append-drop n chunk,
      )
      refl

no_failure_bytes : (o : Option MuxError) → result_bytes (failure o) ≡ []
unfolding failure result_bytes
no_failure_bytes none = refl
no_failure_bytes (some e) = refl

read_channel-pending :
    (n : ℕ) (o : Option MuxError) (s : Stream)
    → s.read_buf ≡ []
    → result_bytes (read_channel n o s).0 ++ pending (read_channel n o s).1 ≡ pending s
unfolding read_channel pending result_bytes failure
read_channel-pending n (some x) s e = refl
read_channel-pending n none s e = elim (Bool-cases s.done) [
  | inl b ↦ simp b refl
  | inr b ↦
      simp b (read_inbound-pending n s.inbound s e ∙ ap (λ x. x ++ chunks_bytes s.inbound) (sym e))
]

empty-nil : (b : Bytes) → is_empty b ≡ true → b ≡ []
empty-nil [] h = refl
empty-nil (x ∷ b) h = cc

-- A read takes its bytes from the front of what is pending and leaves the rest, whatever it returns.
pub read-pending :
    (n : ℕ) (s : Stream) → result_bytes (read n s).0 ++ pending (read n s).1 ≡ pending s
unfolding read pending result_bytes
read-pending n s = elim (Bool-cases (is_empty s.read_buf)) [
  | inl b ↦ simp b (read_channel-pending n s.reset_err s (empty-nil s.read_buf b))
  | inr b ↦
      rw
        (
          b,
          ← (append_assoc (take n s.read_buf) (drop n s.read_buf) (chunks_bytes s.inbound)),
          take-append-drop n s.read_buf,
        )
        refl
]
