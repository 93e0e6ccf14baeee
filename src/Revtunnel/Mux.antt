-- ===== src/Revtunnel/Mux.antt =====
-- internal/revtunnel/stream.go: the table of streams, the calls on a stream that reach the connection,
-- and the loop that reads frames. Streams are kept in a heap, since a caller may hold one that the
-- table has dropped; a stream is named by its place there.
use sase.Prelude.{
  ℕ, zero, suc, ◌+◌, ◌%◌, ◌^◌, Bool, true, false, not, ◌&&◌, ◌||◌, List, [], ◌∷◌, ◌++◌, Option,
  none, some, length, take, drop, ◌==◌, if◌then◌else◌, is_empty, get_elem?, set,
}
use sase.Prelude.Bytes.{Bytes}
use sase.Prelude.Dict.{Dict, get, put, del, nat_key}
use sase.Prelude.Result.{Result, ok, err}
use sase.Revtunnel.Wire.{
  MuxError, mux_closed, stream_reset, stream_closed, Conn, write_frame, Frame, Next, short,
  oversize, frame, next_frame, frame_open, frame_data, frame_close, frame_rst, max_frame_payload,
}
use sase.Revtunnel.Stream.{
  Stream, new_stream, deliver, remote_close, shut_down, ReadResult, waits, read,
}

-- `opened` is what onOpen was called with, where there is one.
pub record MuxConn : Type 0 where
  pub conn : Conn
  pub heap : List Stream
  pub streams : Dict ℕ ℕ
  pub next_id : ℕ
  pub server : Bool
  pub closed : Bool
  pub has_on_open : Bool
  pub opened : List (ℕ × Bytes)

unfoldable pub new_mux_conn : Conn → Bool → MuxConn
new_mux_conn conn server = record {
  conn = conn;
  heap = [];
  streams = [];
  next_id = 0;
  server = server;
  closed = false;
  has_on_open = false;
  opened = [];
}

unfoldable pub remove_stream : ℕ → MuxConn → MuxConn
remove_stream id m = record m { streams = del id m.streams }

unfoldable pub set_stream : ℕ → Stream → MuxConn → MuxConn
set_stream r s m = record m { heap = set m.heap r s }

-- A new stream, in the heap and in the table.
unfoldable pub add_stream : ℕ → MuxConn → MuxConn
add_stream id m = record m {
  heap = m.heap ++ (new_stream id ∷ []);
  streams = put id (length m.heap) m.streams;
}

unfoldable pub write : ℕ → ℕ → Bytes → MuxConn → Option MuxError × MuxConn
write typ id payload m =
    let (e, conn) = write_frame typ id payload m.conn in (e, record m { conn = conn })

unfoldable pub opened_or_removed : ℕ → ℕ → Option MuxError × MuxConn → Result MuxError ℕ × MuxConn
opened_or_removed id r (none, m) = (ok r, m)
opened_or_removed id r (some e, m) = (err e, remove_stream id m)

unfoldable pub open_stream : Bytes → MuxConn → Result MuxError ℕ × MuxConn
open_stream dst m =
    let id = (m.next_id + 1) % 2 ^ 32 in
    if m.closed
    then (err mux_closed, m)
    else opened_or_removed id (length m.heap)
        (write frame_open id dst (add_stream id (record m { next_id = id })))

unfoldable pub accept_stream : ℕ → MuxConn → Option ℕ × MuxConn
accept_stream id m = if m.closed then (none, m) else (some (length m.heap), add_stream id m)

unfoldable pub shut_at : ℕ → MuxError → Option Stream → MuxConn → MuxConn
shut_at r cause none m = m
shut_at r cause (some s) m =
    if s.done then m else remove_stream s.id (set_stream r (shut_down cause s) m)

unfoldable pub shutdown : ℕ → MuxError → MuxConn → MuxConn
shutdown r cause m = shut_at r cause (get_elem? m.heap r) m

unfoldable pub reap : Stream → MuxConn → MuxConn
reap s m = if s.local_done && s.remote_eof then remove_stream s.id m else m

unfoldable pub shutdown_all : Dict ℕ ℕ → MuxError → MuxConn → MuxConn
shutdown_all [] cause m = m
shutdown_all ((id, r) ∷ victims) cause m = shutdown_all victims cause (shutdown r cause m)

unfoldable pub close_conn : MuxConn → MuxConn
close_conn m = record m { conn = record m.conn { shut = true } }

unfoldable pub close_all : MuxError → MuxConn → MuxConn
close_all cause m =
    if m.closed
    then m
    else close_conn (shutdown_all m.streams cause (record m { closed = true; streams = [] }))

unfoldable pub open_called : Bytes → Option ℕ × MuxConn → MuxConn
open_called dst (none, m) = m
open_called dst (some r, m) = record m { opened = m.opened ++ ((r, dst) ∷ []) }

-- A frame for the stream at r, if the table has one; `true` when the loop waits in deliver.
unfoldable pub dispatch_to : ℕ → Bytes → ℕ → Option Stream → MuxConn → Bool × MuxConn
dispatch_to typ payload r none m = (false, m)
dispatch_to typ payload r (some s) m =
    let (waiting, s') = deliver payload s in
    let s'' = remote_close s in
    if typ == frame_data
    then (waiting, set_stream r s' m)
    else if typ == frame_close
    then (false, reap s'' (set_stream r s'' m))
    else if typ == frame_rst
    then (false, shutdown r stream_reset m)
    else (false, m)

-- The stream that the table has under a number.
unfoldable pub dispatch_at : ℕ → Bytes → Option ℕ → MuxConn → Bool × MuxConn
dispatch_at typ payload none m = (false, m)
dispatch_at typ payload (some r) m = dispatch_to typ payload r (get_elem? m.heap r) m

unfoldable pub dispatch : Frame → MuxConn → Bool × MuxConn
dispatch f m =
    if f.typ == frame_open
    then (
      false,
      if m.server || not m.has_on_open then m else open_called f.payload (accept_stream f.id m),
    )
    else dispatch_at f.typ f.payload (get f.id m.streams) m

-- How the loop stands: ended, waiting for room with the bytes from the frame on, or out of fuel.
pub data LoopEnd : Type 0 where
  ended : LoopEnd
  waiting : Bytes → LoopEnd
  no_fuel : LoopEnd

-- One round of readLoop, which goes on with `next`.
unfoldable pub on_next :
    (Bytes → MuxConn → LoopEnd × MuxConn) → Bytes → Next → MuxConn → LoopEnd × MuxConn
on_next next b short m = (ended, close_all mux_closed m)
on_next next b oversize m = (ended, close_all mux_closed m)
on_next next b (frame f rest) m =
    let (wait, m') = dispatch f m in if wait then (waiting b, m) else next rest m'

-- readLoop over the bytes that come until the connection breaks.
unfoldable pub read_loop : ℕ → Bytes → MuxConn → LoopEnd × MuxConn
read_loop zero b m = (no_fuel, m)
read_loop (suc fuel) b m = on_next (read_loop fuel) b (next_frame b) m

-- A call on the stream at r, for one that is not there.
unfoldable pub read_at : ℕ → ℕ → Option Stream → MuxConn → ReadResult × MuxConn
read_at r n none m = (waits, m)
read_at r n (some s) m = let (result, s') = read n s in (result, set_stream r s' m)

unfoldable pub stream_read : ℕ → ℕ → MuxConn → ReadResult × MuxConn
stream_read r n m = read_at r n (get_elem? m.heap r) m

-- What a chunk's write leads to: the error and the end, or the bytes written and the next chunk.
unfoldable pub chunk_written :
    ℕ
    → ℕ
    → Option MuxError × MuxConn
    → (MuxConn → ℕ × Option MuxError × MuxConn)
    → ℕ × Option MuxError × MuxConn
chunk_written r total (some e, m) next = (total, some e, shutdown r mux_closed m)
chunk_written r total (none, m) next = next m

-- The loop of Write over p, of which the bytes before were written; its fuel is p's length at least.
unfoldable pub write_chunks : ℕ → ℕ → ℕ → Bytes → ℕ → MuxConn → ℕ × Option MuxError × MuxConn
write_chunks zero r id p total m = (total, none, m)
write_chunks (suc fuel) r id p total m =
    let chunk = take max_frame_payload p in
    let next = write_chunks fuel r id (drop max_frame_payload p) (total + length chunk) in
    if is_empty p
    then (total, none, m)
    else chunk_written r total (write frame_data id chunk m) next

unfoldable pub write_at : ℕ → Bytes → Option Stream → MuxConn → ℕ × Option MuxError × MuxConn
write_at r p none m = (0, some stream_closed, m)
write_at r p (some s) m = elim s.reset_err [
  | some e ↦ (0, some e, m)
  | none ↦ if s.local_done then (0, some stream_closed, m) else write_chunks (length p) r s.id p 0 m
]

unfoldable pub stream_write : ℕ → Bytes → MuxConn → ℕ × Option MuxError × MuxConn
stream_write r p m = write_at r p (get_elem? m.heap r) m

unfoldable pub close_at : ℕ → Option Stream → MuxConn → MuxConn
close_at r none m = m
close_at r (some s) m =
    let s' = record s { local_done = true } in
    let m' = set_stream r s' m in
    reap s' (if s.local_done then m' else (write frame_close s.id [] m').1)

unfoldable pub stream_close : ℕ → MuxConn → MuxConn
stream_close r m = close_at r (get_elem? m.heap r) m

unfoldable pub reset_at : ℕ → Option Stream → MuxConn → MuxConn
reset_at r none m = m
reset_at r (some s) m = elim s.reset_err [
  | some e ↦ shutdown r stream_reset m
  | none ↦ shutdown r stream_reset (write frame_rst s.id [] m).1
]

unfoldable pub stream_reset_by : ℕ → MuxConn → MuxConn
stream_reset_by r m = reset_at r (get_elem? m.heap r) m
