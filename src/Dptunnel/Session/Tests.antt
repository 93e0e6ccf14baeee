-- ===== src/Dptunnel/Session/Tests.antt =====
-- A session over a cipher that changes nothing, in both directions.
use sase.Prelude.{◌≡◌, ◌<◌, refl, inl, true, false, List, [], ◌∷◌, some, arith, ◌++◌, replicate}
use sase.Prelude.Bytes.{Bytes, bytes}
use sase.Dptunnel.Frame.{Frame, ok, marshal, data_body}
use sase.Dptunnel.Frame.RoundTrip.{IsFrame}
use sase.Dptunnel.Fec.{new_fec_encoder, enabled, peek, add}
use sase.Dptunnel.Replay.{accept, empty_window}
use sase.Dptunnel.Session.{
  Aead, Session, new_session, seal, sent, framed, slot, sealed_payload, open_datagram,
}
use sase.Dptunnel.Session.Nonces.{Distinct, seal_all, NoncesOf, seal_all-Distinct}
use sase.Dptunnel.Session.Delivery.{OpensSealed, open-seal}

abbrev plain_aead : Aead
plain_aead = record { seal_text = λ n p a. p; open_text = λ n c a. some c }

plain_aead-OpensSealed : OpensSealed plain_aead
plain_aead-OpensSealed = record { opens = λ n p a. refl }

abbrev sender : Session
sender = new_session 2 0 1

abbrev receiver : Session
receiver = new_session 2 1 0

abbrev packet : Bytes
packet = bytes "ping"

-- What the sender sends first.
abbrev first_datagram : Bytes
first_datagram = (1 ∷ 0 ∷ []) ++ (replicate 5 0 ++ (2 ∷ (replicate 9 0 ++ (4 ∷ packet))))

sealed_first :
    seal plain_aead sender packet ≡ ((seal plain_aead sender packet).0, sent (first_datagram ∷ []))
unfolding seal framed slot sealed_payload new_session marshal enabled peek data_body add
sealed_first = refl

mirrored : receiver.recv_dir ≡ sender.send_dir
unfolding new_session
mirrored = refl

first_block : sender.enc.block_id < 4294967296
unfolding new_session new_fec_encoder
first_block = omega arith

fresh_counter : (accept receiver.replay sender.send_ctr).1 ≡ true
unfolding new_session accept empty_window
fresh_counter = refl

-- The receiver after the counter was accepted.
abbrev receiver_after : Session
receiver_after = record receiver { replay = (accept receiver.replay sender.send_ctr).0 }

mirrored_after : receiver_after.recv_dir ≡ sender.send_dir
unfolding new_session
mirrored_after = refl

stale_counter : (accept receiver_after.replay sender.send_ctr).1 ≡ false
unfolding new_session accept empty_window
stale_counter = refl

open-seal_example :
    (rest : List Bytes) × ((open_datagram plain_aead receiver first_datagram).1
      ≡ ok (packet ∷ rest))
open-seal_example =
    open-seal plain_aead plain_aead-OpensSealed sender (seal plain_aead sender packet).0 receiver
      packet first_datagram [] sealed_first mirrored first_block fresh_counter

seal_all-Distinct_example :
    (ns : List Bytes) × NoncesOf plain_aead
      (seal_all plain_aead sender (packet ∷ packet ∷ bytes "pong" ∷ []))
      ns
    × Distinct plain_aead ns
seal_all-Distinct_example =
    seal_all-Distinct plain_aead sender (packet ∷ packet ∷ bytes "pong" ∷ [])

abbrev data_packet_frame : Frame
data_packet_frame = record { typ = 0; block_id = 70000; index = 1; k = 4; body = 7 ∷ 8 ∷ [] }

data_packet-IsFrame : IsFrame data_packet_frame
data_packet-IsFrame = record { known_type = inl refl; block_range = omega arith }
