-- ===== src/Revtunnel/Codec.antt =====
-- internal/revtunnel/stream.go: frames as bytes, and what is written read back frame by frame.
use sase.Prelude.{
  ℕ, zero, suc, ◌+◌, ◌^◌, ◌≤◌, ◌<◌, ◌≡◌, refl, arith, Bool-cases, inl, inr, List, [], ◌∷◌, ◌++◌,
  Option, none, some, length, take, drop, All, length-drop, length-append, get_or, if◌then◌else◌,
}
use mathlib.Core.Option.{some-injective}
use mathlib.Core.List.{append_assoc}
use sase.Prelude.Bytes.{Bytes}
use sase.Dptunnel.Frame.{put_uint16, put_uint32, uint16_at, uint32_at}
use sase.Revtunnel.Wire.{
  Frame, short, frame, header, next_frame, header_len, max_frame_payload, mux_closed,
}
use sase.Revtunnel.Mux.{MuxConn, ended, dispatch, on_next, read_loop, close_all}

-- The ranges of the fields of a frame that writeFrame writes.
pub record IsFrame (f : Frame) : Type 0 where
  pub id_range : f.id < 2 ^ 32
  pub payload_range : length f.payload ≤ max_frame_payload

unfoldable pub encode : Frame → Bytes
encode f = header f.typ f.id (length f.payload) ++ f.payload

unfoldable pub encode_all : List Frame → Bytes
encode_all [] = []
encode_all (f ∷ fs) = encode f ++ encode_all fs

take_append : (xs ys : Bytes) → take (length xs) (xs ++ ys) ≡ xs
take_append [] ys = refl
take_append (x ∷ xs) ys = ground (arith, take_append xs ys)

drop_append : (xs ys : Bytes) → drop (length xs) (xs ++ ys) ≡ ys
drop_append [] ys = refl
drop_append (x ∷ xs) ys = drop_append xs ys

-- The fields read off nine bytes of header.
read_header :
    (f : Frame) (rest : Bytes)
    → IsFrame f
    → (uint32_at (encode f ++ rest) 5 ≡ length f.payload)
      × (uint32_at (encode f ++ rest) 1 ≡ f.id)
      × (drop header_len (encode f ++ rest) ≡ f.payload ++ rest)
      × (length (encode f ++ rest) ≡ header_len + length (f.payload ++ rest))
unfolding encode header put_uint32 put_uint16 uint32_at uint16_at
read_header f rest h =
    let small = h.payload_range in
    let id = h.id_range in (omega (arith, small), omega (arith, id), refl, omega arith)

first_byte : (f : Frame) (rest : Bytes) → get_or (encode f ++ rest) 0 0 ≡ f.typ
unfolding encode header
first_byte f rest = refl

pub next_frame-encode :
    (f : Frame) (rest : Bytes) → IsFrame f → next_frame (encode f ++ rest) ≡ frame f rest
unfolding next_frame
next_frame-encode f rest h =
    let r = read_header f rest h in
    rw
      (
        next_frame,
        r.0,
        r.1,
        r.2,
        r.3,
        take_append f.payload rest,
        drop_append f.payload rest,
        first_byte f rest,
      )
      (ground (arith, length-append f.payload rest, h.payload_range))

pub next_frame-shorter :
    (b : Bytes) (f : Frame) (rest : Bytes) → next_frame b ≡ frame f rest → length rest < length b
unfolding next_frame
next_frame-shorter b f rest h =
    ground (arith, length-drop header_len b, length-drop (uint32_at b 5) (drop header_len b))

-- Frames dispatched in order, unless one waits for room.
unfoldable pub dispatch_all : List Frame → MuxConn → Option MuxConn
dispatch_all [] m = some m
dispatch_all (f ∷ fs) m =
    let (wait, t) = dispatch f m in let rest = dispatch_all fs t in if wait then none else rest

-- Frames written one after the other are dispatched one after the other, and when the connection
-- breaks within the frame that follows, every stream is closed.
pub read_loop-encode_all :
    (fs : List Frame) (tail : Bytes) (fuel : ℕ) (m t : MuxConn)
    → All IsFrame fs
    → next_frame tail ≡ short
    → dispatch_all fs m ≡ some t
    → length fs < fuel
    → read_loop fuel (encode_all fs ++ tail) m ≡ (ended, close_all mux_closed t)
unfolding read_loop on_next encode_all dispatch_all
read_loop-encode_all [] tail zero m t h e d l = absurd (omega arith)
read_loop-encode_all [] tail (suc fuel) m t h e d l = rw (e, some-injective m t d) refl
read_loop-encode_all (f ∷ fs) tail zero m t h e d l = absurd (omega arith)
read_loop-encode_all (f ∷ fs) tail (suc fuel) m t h e d l =
    let next = next_frame-encode f (encode_all fs ++ tail) h.0 in
    let bytes = append_assoc (encode f) (encode_all fs) tail in
    elim (Bool-cases (dispatch f m).0) [
      | inl w ↦ ground arith
      | inr w ↦
          rw (bytes, next, w)
            (read_loop-encode_all fs tail fuel (dispatch f m).1 t h.1 e (ground (arith, d, w))
              (omega arith))
    ]
