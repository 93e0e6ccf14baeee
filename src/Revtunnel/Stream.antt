-- ===== src/Revtunnel/Stream.antt =====
-- internal/revtunnel/stream.go: a stream, as its own fields see it. A call is one step; one that waits
-- says so and changes nothing, and is tried again later.
use sase.Prelude.{
  ℕ, Bool, true, false, not, ◌&&◌, List, [], ◌∷◌, ◌++◌, Option, none, some, length, take, drop, ltb,
  if◌then◌else◌, is_empty,
}
use sase.Prelude.Bytes.{Bytes}
use sase.Revtunnel.Wire.{MuxError}

abbrev pub stream_read_buf : ℕ
stream_read_buf = 64

-- `inbound` is the channel, in which `none` is the nil that a CLOSE leaves; `done` is a closed doneCh.
pub record Stream : Type 0 where
  pub id : ℕ
  pub inbound : List (Option Bytes)
  pub read_buf : Bytes
  pub remote_eof : Bool
  pub reset_err : Option MuxError
  pub local_done : Bool
  pub done : Bool

unfoldable pub new_stream : ℕ → Stream
new_stream id = record {
  id = id;
  inbound = [];
  read_buf = [];
  remote_eof = false;
  reset_err = none;
  local_done = false;
  done = false;
}

unfoldable pub has_room : Stream → Bool
has_room s = ltb (length s.inbound) stream_read_buf

unfoldable pub enqueue : Option Bytes → Stream → Stream
enqueue chunk s = record s { inbound = s.inbound ++ (chunk ∷ []) }

-- deliver; `true` when it waits for room. A closed stream drops what does not fit.
unfoldable pub deliver : Bytes → Stream → Bool × Stream
deliver p s =
    if is_empty p
    then (false, s)
    else if has_room s
    then (false, enqueue (some p) s)
    else (not s.done, s)

-- remoteClose, but for the removal from the table.
unfoldable pub remote_close : Stream → Stream
remote_close s =
    let marked = record s { remote_eof = true } in
    if has_room s then enqueue none marked else marked

unfoldable pub or_cause : Option MuxError → MuxError → Option MuxError
or_cause none cause = some cause
or_cause (some e) cause = some e

-- shutdown, but for the removal from the table.
unfoldable pub shut_down : MuxError → Stream → Stream
shut_down cause s =
    if s.done then s else record s { reset_err = or_cause s.reset_err cause; done = true }

pub data ReadResult : Type 0 where
  got : Bytes → ReadResult
  eof : ReadResult
  failed : MuxError → ReadResult
  waits : ReadResult

unfoldable pub failure : Option MuxError → ReadResult
failure none = eof
failure (some e) = failed e

-- The loop over what is in the channel, for a buffer of n bytes.
unfoldable pub read_inbound : ℕ → List (Option Bytes) → Stream → ReadResult × Stream
read_inbound n [] s = (waits, record s { inbound = [] })
read_inbound n (none ∷ chunks) s =
    let rest = read_inbound n chunks s in
    if s.remote_eof && is_empty chunks then (eof, record s { inbound = [] }) else rest
read_inbound n (some chunk ∷ chunks) s = (
  got (take n chunk),
  record s {
    inbound = chunks;
    read_buf = if ltb n (length chunk) then drop n chunk else s.read_buf;
  },
)

unfoldable pub read_channel : ℕ → Option MuxError → Stream → ReadResult × Stream
read_channel n (some e) s = (failed e, s)
read_channel n none s = if s.done then (failure none, s) else read_inbound n s.inbound s

-- Read into a buffer of n bytes.
unfoldable pub read : ℕ → Stream → ReadResult × Stream
read n s =
    if is_empty s.read_buf
    then read_channel n s.reset_err s
    else (got (take n s.read_buf), record s { read_buf = drop n s.read_buf })
