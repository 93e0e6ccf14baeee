-- ===== src/Revtunnel/Tests.antt =====
-- The multiplexer on concrete frames and streams.
use sase.Prelude.{
  ◌≡◌, ◌≢◌, refl, arith, true, false, [], ◌∷◌, ◌++◌, none, some, All, ltb, if◌then◌else◌,
}
use sase.Prelude.Bytes.{Bytes, AreBytes, bytes}
use sase.Prelude.Dict.{get, nat_key}
use sase.Prelude.Result.{err}
use sase.Revtunnel.Wire.{Conn, Frame, short, frame_data, mux_closed, next_frame}
use sase.Revtunnel.Stream.{
  Stream, stream_read_buf, deliver, has_room, enqueue, remote_close, eof, waits, read,
}
use sase.Revtunnel.Mux.{
  MuxConn, ended, set_stream, dispatch_to, dispatch_at, dispatch, read_loop, close_all, stream_read,
  stream_write, open_stream,
}
use sase.Revtunnel.Codec.{IsFrame, encode_all, dispatch_all, read_loop-encode_all}
use sase.Revtunnel.Consuming.{Consumed, StoppedAt, read_loop-consumes}
use sase.Revtunnel.Reading.{pending, result_bytes, read-pending}
use sase.Revtunnel.Closing.{idle, some_chunks, concat_chunks, reads, remote_close-reads}
use sase.Revtunnel.Writing.{IsUp, data_frames, payloads, stream_write-frames}
use sase.Revtunnel.Shutdown.{close_all-wakes}

abbrev test_conn : Conn
test_conn = record { sent = []; outcomes = []; shut = false }

-- A connector's end, on which the peer has opened stream 5.
abbrev test_stream : Stream
test_stream = record {
  id = 5;
  inbound = [];
  read_buf = [];
  remote_eof = false;
  reset_err = none;
  local_done = false;
  done = false;
}

abbrev test_mux : MuxConn
test_mux = record {
  conn = test_conn;
  heap = test_stream ∷ [];
  streams = (5, 0) ∷ [];
  next_id = 0;
  server = false;
  closed = false;
  has_on_open = true;
  opened = (0, bytes "10.0.0.1:22") ∷ [];
}

abbrev test_frame : Frame
test_frame = record { typ = frame_data; id = 5; payload = 7 ∷ 8 ∷ 9 ∷ [] }

abbrev received_mux : MuxConn
received_mux = record test_mux {
  heap = record test_stream { inbound = some (7 ∷ 8 ∷ 9 ∷ []) ∷ [] } ∷ [];
}

test_frames-IsFrame : All IsFrame (test_frame ∷ [])
test_frames-IsFrame = (record { id_range = omega arith; payload_range = omega arith }, tt)

half_header : next_frame (2 ∷ 0 ∷ []) ≡ short
unfolding next_frame
half_header = refl

test_dispatch : dispatch_all (test_frame ∷ []) test_mux ≡ some received_mux
unfolding dispatch_all dispatch dispatch_at dispatch_to set_stream deliver has_room enqueue get
test_dispatch = refl

entry : get 5 test_mux.streams ≡ some 0
unfolding get
entry = refl

read_loop-encode_all_example :
    read_loop 2 (encode_all (test_frame ∷ []) ++ (2 ∷ 0 ∷ [])) test_mux
    ≡ (ended, close_all mux_closed received_mux)
read_loop-encode_all_example =
    read_loop-encode_all (test_frame ∷ []) (2 ∷ 0 ∷ []) 2 test_mux received_mux test_frames-IsFrame
      half_header test_dispatch (omega arith)

abbrev test_bytes : Bytes
test_bytes = 2 ∷ 0 ∷ 0 ∷ 0 ∷ 5 ∷ 0 ∷ 0 ∷ 0 ∷ 1 ∷ 7 ∷ 9 ∷ []

test-AreBytes : AreBytes test_bytes
test-AreBytes = (
  omega arith,
  (
    omega arith,
    (
      omega arith,
      (
        omega arith,
        (
          omega arith,
          (
            omega arith,
            (omega arith, (omega arith, (omega arith, (omega arith, (omega arith, tt))))),
          ),
        ),
      ),
    ),
  ),
)

read_loop-consumes_example :
    (rest : Bytes) × (t : MuxConn) × Consumed test_bytes test_mux rest t
    × StoppedAt rest t (read_loop 12 test_bytes test_mux)
read_loop-consumes_example = read_loop-consumes 12 test_bytes test_mux test-AreBytes (omega arith)

read-pending_example :
    result_bytes (read 2 (record test_stream { inbound = some (7 ∷ 8 ∷ 9 ∷ []) ∷ [] })).0
      ++ pending (read 2 (record test_stream { inbound = some (7 ∷ 8 ∷ 9 ∷ []) ∷ [] })).1
    ≡ pending (record test_stream { inbound = some (7 ∷ 8 ∷ 9 ∷ []) ∷ [] })
read-pending_example = read-pending 2 (record test_stream { inbound = some (7 ∷ 8 ∷ 9 ∷ []) ∷ [] })

remote_close-reads_example :
    ((reads 3 1 (remote_close (idle 5 false false (some_chunks ((7 ∷ 8 ∷ []) ∷ []))))).0
      ≡ concat_chunks ((7 ∷ 8 ∷ []) ∷ []))
    × ((read 3
          (reads 3 1 (remote_close (idle 5 false false (some_chunks ((7 ∷ 8 ∷ []) ∷ []))))).1).0
        ≡ (if ltb 1 stream_read_buf then eof else waits))
remote_close-reads_example = remote_close-reads 3 5 false ((7 ∷ 8 ∷ []) ∷ []) (omega arith, tt)

test-IsUp : IsUp test_mux.conn
test-IsUp = record { no_failures = refl; not_shut = refl }

stream_write-frames_example :
    (stream_write 0 (1 ∷ 2 ∷ []) test_mux ≡ (
      2,
      none,
      record test_mux {
        conn = record test_conn { sent = [] ++ encode_all (data_frames 2 5 (1 ∷ 2 ∷ [])) };
      },
    ))
    × (payloads (data_frames 2 5 (1 ∷ 2 ∷ [])) ≡ 1 ∷ 2 ∷ [])
    × All IsFrame (data_frames 2 5 (1 ∷ 2 ∷ []))
stream_write-frames_example =
    stream_write-frames 0 (1 ∷ 2 ∷ []) test_stream test_mux test-IsUp refl refl refl (omega arith)

close_all-wakes_example :
    ((stream_read 0 10 (close_all mux_closed test_mux)).0 ≢ waits)
    × ((open_stream (bytes "10.0.0.2:80") (close_all mux_closed test_mux)).0 ≡ err mux_closed)
close_all-wakes_example =
    close_all-wakes test_mux mux_closed 5 0 10 test_stream (bytes "10.0.0.2:80") refl entry refl
