-- ===== src/Revtunnel/Writing.antt =====
-- What Write puts on the connection: all the bytes, cut into frames that the peer's loop takes.
use sase.Prelude.{
  ℕ, zero, suc, ◌+◌, ◌^◌, ◌≤◌, ◌<◌, ◌≡◌, refl, sym, arith, true, false, Bool-cases, inl, inr, List,
  [], ◌∷◌, ◌++◌, none, some, length, take, drop, All, ltb, is_empty, get_elem?, if◌then◌else◌,
  length-take, length-drop, take-append-drop,
}
use mathlib.Core.List.{append_assoc, append-nil}
use sase.Prelude.Bytes.{Bytes}
use sase.Revtunnel.Wire.{
  Conn, Frame, frame_data, header, max_frame_payload, conn_write, write_outcome, write_payload,
  write_frame,
}
use sase.Revtunnel.Stream.{Stream}
use sase.Revtunnel.Mux.{MuxConn, write, chunk_written, write_chunks, write_at, stream_write}
use sase.Revtunnel.Codec.{IsFrame, encode, encode_all}

-- A connection whose writes all succeed.
pub record IsUp (c : Conn) : Type 0 where
  pub no_failures : c.outcomes ≡ []
  pub not_shut : c.shut ≡ false

-- The DATA frames that the bytes are cut into, with their number at least as fuel.
unfoldable pub data_frames : ℕ → ℕ → Bytes → List Frame
data_frames zero id p = []
data_frames (suc fuel) id p =
    let rest = data_frames fuel id (drop max_frame_payload p) in
    if is_empty p
    then []
    else record { typ = frame_data; id = id; payload = take max_frame_payload p } ∷ rest

unfoldable pub payloads : List Frame → Bytes
payloads [] = []
payloads (f ∷ fs) = f.payload ++ payloads fs

drop_less :
    (fuel : ℕ) (p : Bytes)
    → is_empty p ≡ false
    → length p ≤ suc fuel
    → length (drop max_frame_payload p) ≤ fuel
drop_less fuel [] e h = absurd (cc)
drop_less fuel (x ∷ p) e h = omega (arith, length-drop max_frame_payload (x ∷ p))

no_bytes : (p : Bytes) → is_empty p ≡ true → p ≡ []
no_bytes [] h = refl
no_bytes (x ∷ p) h = cc

pub payloads-data_frames :
    (fuel id : ℕ) (p : Bytes) → length p ≤ fuel → payloads (data_frames fuel id p) ≡ p
unfolding payloads data_frames
payloads-data_frames zero id [] h = refl
payloads-data_frames zero id (x ∷ p) h = absurd (omega arith)
payloads-data_frames (suc fuel) id p h = elim (Bool-cases (is_empty p)) [
  | inl e ↦ rw e (sym (no_bytes p e))
  | inr e ↦
      rw (e, payloads-data_frames fuel id (drop max_frame_payload p) (drop_less fuel p e h))
        (take-append-drop max_frame_payload p)
]

pub data_frames-IsFrame :
    (fuel id : ℕ) (p : Bytes) → id < 2 ^ 32 → All IsFrame (data_frames fuel id p)
unfolding data_frames
data_frames-IsFrame zero id p h = tt
data_frames-IsFrame (suc fuel) id p h = elim (Bool-cases (is_empty p)) [
  | inl e ↦ rw e tt
  | inr e ↦ rw e (
    record { id_range = h; payload_range = omega (arith, length-take max_frame_payload p) },
    data_frames-IsFrame fuel id (drop max_frame_payload p) h,
  )
]

-- A connection with more bytes written to it.
abbrev more : Bytes → Conn → Conn
more b c = record c { sent = c.sent ++ b }

conn_write-up : (b : Bytes) (c : Conn) → IsUp c → conn_write b c ≡ (none, more b c)
unfolding conn_write write_outcome
conn_write-up b c u = rw (u.not_shut, u.no_failures) refl

write_frame-up :
    (typ id : ℕ) (payload : Bytes) (c : Conn)
    → IsUp c
    → length payload ≤ max_frame_payload
    → write_frame typ id payload c
      ≡ (none, more (encode (record { typ = typ; id = id; payload = payload })) c)
unfolding write_frame write_payload encode
write_frame-up typ id payload c u h =
    let head = header typ id (length payload) in
    let fits : ltb max_frame_payload (length payload) ≡ false = ground arith in
    let up : IsUp (more head c) = record { no_failures = u.no_failures; not_shut = u.not_shut } in
    elim (Bool-cases (is_empty payload)) [
      | inl e ↦
          rw (fits, conn_write-up head c u, e, no_bytes payload e, append-nil (header typ id 0))
            refl
      | inr e ↦
          rw
            (
              fits,
              conn_write-up head c u,
              e,
              conn_write-up payload (more head c) up,
              append_assoc c.sent head payload,
            )
            refl
    ]

-- The bytes written to a connection of the multiplexer.
abbrev sent_more : Bytes → MuxConn → MuxConn
sent_more b m = record m { conn = more b m.conn }

write-up :
    (typ id : ℕ) (payload : Bytes) (m : MuxConn)
    → IsUp m.conn
    → length payload ≤ max_frame_payload
    → write typ id payload m
      ≡ (none, sent_more (encode (record { typ = typ; id = id; payload = payload })) m)
unfolding write
write-up typ id payload m u h = rw (write_frame-up typ id payload m.conn u h) refl

all_bytes :
    (total n : ℕ) (p : Bytes) → total + length (take n p) + length (drop n p) ≡ total + length p
all_bytes total n p = omega (arith, length-take n p, length-drop n p)

no_more : (total : ℕ) → total + 0 ≡ total
no_more total = omega arith

none_before : (n : ℕ) → 0 + n ≡ n
none_before n = omega arith

write_chunks-up :
    (fuel r id : ℕ) (p : Bytes) (total : ℕ) (m : MuxConn)
    → IsUp m.conn
    → length p ≤ fuel
    → write_chunks fuel r id p total m
      ≡ (total + length p, none, sent_more (encode_all (data_frames fuel id p)) m)
unfolding write_chunks data_frames encode_all chunk_written
write_chunks-up zero r id [] total m u h = rw (append-nil m.conn.sent, no_more total) refl
write_chunks-up zero r id (x ∷ p) total m u h = absurd (omega arith)
write_chunks-up (suc fuel) r id p total m u h = elim (Bool-cases (is_empty p)) [
  | inl e ↦ rw (e, no_bytes p e, append-nil m.conn.sent, no_more total) refl
  | inr e ↦
      let chunk = take max_frame_payload p in
      let later = drop max_frame_payload p in
      let f : Frame = record { typ = frame_data; id = id; payload = chunk } in
      let next = sent_more (encode f) m in
      let up : IsUp next.conn = record { no_failures = u.no_failures; not_shut = u.not_shut } in
      let fits : length chunk ≤ max_frame_payload =
        omega (arith, length-take max_frame_payload p) in
      let rest =
        write_chunks-up fuel r id later (total + length chunk) next up (drop_less fuel p e h) in
      rw
        (
          e,
          write-up frame_data id chunk m u fits,
          rest,
          all_bytes total max_frame_payload p,
          append_assoc m.conn.sent (encode f) (encode_all (data_frames fuel id later)),
        )
        refl
]

-- On a connection that is up, a Write to a stream that is neither reset nor closed sends exactly the
-- frames that its bytes are cut into, reports as many bytes as it was given and no error; the frames
-- carry the bytes in order, and each is one that the peer's loop takes.
pub stream_write-frames :
    (r : ℕ) (p : Bytes) (s : Stream) (m : MuxConn)
    → IsUp m.conn
    → get_elem? m.heap r ≡ some s
    → s.reset_err ≡ none
    → s.local_done ≡ false
    → s.id < 2 ^ 32
    → (stream_write r p m ≡ (
      length p,
      none,
      record m {
        conn = record m.conn { sent = m.conn.sent ++ encode_all (data_frames (length p) s.id p) };
      },
    ))
      × (payloads (data_frames (length p) s.id p) ≡ p)
      × All IsFrame (data_frames (length p) s.id p)
unfolding stream_write write_at
stream_write-frames r p s m u e n l i =
    let sent = write_chunks-up (length p) r s.id p 0 m u (omega arith) in
    (
      rw (e, n, l, sent, none_before (length p)) refl,
      payloads-data_frames (length p) s.id p (omega arith),
      data_frames-IsFrame (length p) s.id p i,
    )
