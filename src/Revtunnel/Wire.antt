-- ===== src/Revtunnel/Wire.antt =====
-- internal/revtunnel/stream.go: the frames as bytes, and the connection that they are written to.
use sase.Prelude.{
  ℕ, ◌+◌, ◌%◌, ◌^◌, Bool, true, false, List, [], ◌∷◌, ◌++◌, Option, none, some, length, take, drop,
  get_or, ltb, if◌then◌else◌, is_empty,
}
use sase.Prelude.Bytes.{Bytes}
use sase.Dptunnel.Frame.{put_uint32, uint32_at}

abbrev pub frame_open : ℕ
frame_open = 1

abbrev pub frame_data : ℕ
frame_data = 2

abbrev pub frame_close : ℕ
frame_close = 3

abbrev pub frame_rst : ℕ
frame_rst = 4

abbrev pub header_len : ℕ
header_len = 9

abbrev pub max_frame_payload : ℕ
max_frame_payload = 2 ^ 16

pub data MuxError : Type 0 where
  mux_closed stream_reset stream_closed payload_too_large write_failed : MuxError

-- The bytes written so far, whether the next writes succeed (they do after the list), and whether
-- the connection was closed.
pub record Conn : Type 0 where
  pub sent : Bytes
  pub outcomes : List Bool
  pub shut : Bool

unfoldable pub write_outcome : List Bool → Bytes → Conn → Option MuxError × Conn
write_outcome [] b c = (none, record c { sent = c.sent ++ b })
write_outcome (true ∷ os) b c = (none, record c { sent = c.sent ++ b; outcomes = os })
write_outcome (false ∷ os) b c = (some write_failed, record c { outcomes = os })

-- conn.Write
unfoldable pub conn_write : Bytes → Conn → Option MuxError × Conn
conn_write b c = if c.shut then (some write_failed, c) else write_outcome c.outcomes b c

unfoldable pub header : ℕ → ℕ → ℕ → Bytes
header typ id len = typ ∷ (put_uint32 id ++ put_uint32 (len % 2 ^ 32))

-- The second write of a frame, unless the first failed or there is no payload.
unfoldable pub write_payload : Bytes → Option MuxError × Conn → Option MuxError × Conn
write_payload payload (some e, c) = (some e, c)
write_payload payload (none, c) = if is_empty payload then (none, c) else conn_write payload c

unfoldable pub write_frame : ℕ → ℕ → Bytes → Conn → Option MuxError × Conn
write_frame typ id payload c =
    if ltb max_frame_payload (length payload)
    then (some payload_too_large, c)
    else write_payload payload (conn_write (header typ id (length payload)) c)

pub record Frame : Type 0 where
  pub typ : ℕ  -- uint8
  pub id : ℕ  -- uint32
  pub payload : Bytes

-- What the loop of readLoop finds at the head of the bytes to come: too few of them, a length that is
-- not allowed, or a frame and the bytes after it.
pub data Next : Type 0 where
  short : Next
  oversize : Next
  frame : Frame → Bytes → Next

unfoldable pub next_frame : Bytes → Next
next_frame b =
    let ln = uint32_at b 5 in
    if ltb (length b) header_len
    then short
    else if ltb max_frame_payload ln
    then oversize
    else if ltb (length b) (header_len + ln)
    then short
    else frame
        (record { typ = get_or b 0 0; id = uint32_at b 1; payload = take ln (drop header_len b) })
        (drop ln (drop header_len b))
