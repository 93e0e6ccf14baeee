-- ===== src/Dptunnel/Frame/RoundTrip.antt =====
-- What is marshalled is parsed back.
use sase.Prelude.{ℕ, ◌^◌, ◌<◌, ◌≡◌, ◌⊎◌, arith, length, take_all}
use sase.Prelude.Bytes.{Bytes}
use sase.Dptunnel.Frame.{
  Frame, ok, marshal, parse_frame, data_body, parse_data_body, type_data, type_parity,
}

-- The ranges of the fields' types, and a type that the receiver takes.
pub record IsFrame (f : Frame) : Type 0 where
  pub known_type : (f.typ ≡ type_data) ⊎ (f.typ ≡ type_parity)
  pub block_range : f.block_id < 2 ^ 32

-- A marshalled frame is parsed back to the same frame.
pub parse_frame-marshal : (f : Frame) → IsFrame f → parse_frame (marshal f) ≡ ok f
unfolding parse_frame marshal
parse_frame-marshal f h = ground arith

-- A data body is parsed back to its counter and its payload.
pub parse_data_body-data_body :
    (counter : ℕ) (sealed : Bytes)
    → counter < 2 ^ 64
    → length sealed < 2 ^ 16
    → parse_data_body (data_body counter sealed) ≡ ok (counter, sealed)
unfolding parse_data_body data_body
parse_data_body-data_body counter sealed h k = ground (arith, take_all sealed)
