-- ===== src/Dptunnel/Frame.antt =====
-- internal/dptunnel/frame.go: the datagram's header and the body of a data frame, big-endian.
pub mod RoundTrip
use sase.Prelude.{
  ℕ, suc, ◌+◌, ◌*◌, ◌/◌, ◌%◌, ◌^◌, Bool, true, false, not, ◌&&◌, List, [], ◌∷◌, ◌++◌, Option, none,
  some, length, take, drop, get_or, ◌==◌, ltb, if◌then◌else◌,
}
use sase.Prelude.Bytes.{Bytes}

abbrev pub frame_version : ℕ
frame_version = 1

abbrev pub type_data : ℕ
type_data = 0

abbrev pub type_parity : ℕ
type_parity = 1

abbrev pub frame_header_len : ℕ
frame_header_len = 8

abbrev pub body_prefix_len : ℕ
body_prefix_len = 10

-- The frame of the source; `typ` is its field Type.
pub record Frame : Type 0 where
  pub typ : ℕ  -- uint8
  pub block_id : ℕ  -- uint32
  pub index : ℕ  -- uint8
  pub k : ℕ  -- uint8
  pub body : Bytes

-- The errors of parseFrame and parseDataBody, without their texts.
pub data FrameError : Type 0 where
  too_short bad_version bad_type body_too_short payload_too_long : FrameError

pub data Result (A : Type 0) : Type 0 where
  ok : A → Result A
  err : FrameError → Result A

-- binary.BigEndian.PutUint16, PutUint32 and PutUint64 on a number of that width.
unfoldable pub put_uint16 : ℕ → Bytes
put_uint16 n = (n / 2 ^ 8 % 256) ∷ (n % 256) ∷ []

unfoldable pub put_uint32 : ℕ → Bytes
unfolding put_uint16
put_uint32 n = put_uint16 (n / 2 ^ 16) ++ put_uint16 n

unfoldable pub put_uint64 : ℕ → Bytes
unfolding put_uint32
put_uint64 n = put_uint32 (n / 2 ^ 32) ++ put_uint32 n

-- binary.BigEndian.Uint16, Uint32 and Uint64 of the bytes from place `i` on.
unfoldable pub uint16_at : Bytes → ℕ → ℕ
uint16_at b i = get_or b i 0 * 2 ^ 8 + get_or b (i + 1) 0

unfoldable pub uint32_at : Bytes → ℕ → ℕ
unfolding uint16_at
uint32_at b i = uint16_at b i * 2 ^ 16 + uint16_at b (i + 2)

unfoldable pub uint64_at : Bytes → ℕ → ℕ
unfolding uint32_at
uint64_at b i = uint32_at b i * 2 ^ 32 + uint32_at b (i + 4)

unfoldable pub header_bytes : ℕ → ℕ → ℕ → ℕ → Bytes
unfolding put_uint32
header_bytes typ block_id index k =
    (frame_version ∷ typ ∷ []) ++ (put_uint32 block_id ++ (index ∷ k ∷ []))

unfoldable pub marshal : Frame → Bytes
unfolding header_bytes
marshal f = header_bytes f.typ f.block_id f.index f.k ++ f.body

unfoldable pub parse_frame : Bytes → Result Frame
unfolding uint32_at
parse_frame b =
    if ltb (length b) frame_header_len
    then err too_short
    else if not (get_or b 0 0 == frame_version)
    then err bad_version
    else if not (get_or b 1 0 == type_data) && not (get_or b 1 0 == type_parity)
    then err bad_type
    else ok (record {
      typ = get_or b 1 0;
      block_id = uint32_at b 2;
      index = get_or b 6 0;
      k = get_or b 7 0;
      body = drop frame_header_len b;
    })

-- The length is cut to 16 bits; Seal refuses a longer payload before it gets here.
unfoldable pub data_body : ℕ → Bytes → Bytes
unfolding put_uint64 put_uint16
data_body counter sealed = put_uint64 counter ++ (put_uint16 (length sealed % 2 ^ 16) ++ sealed)

unfoldable pub parse_data_body : Bytes → Result (ℕ × Bytes)
unfolding uint64_at uint16_at
parse_data_body body =
    if ltb (length body) body_prefix_len
    then err body_too_short
    else let plen = uint16_at body 8 in
      if ltb (length body) (body_prefix_len + plen)
      then err payload_too_long
      else ok (uint64_at body 0, take plen (drop body_prefix_len body))
