-- ===== src/Dptunnel/Session.antt =====
-- internal/dptunnel/session.go: sealing and opening of datagrams. The AEAD is a parameter (its
-- implementations are third-party ciphers). NewSession panics on two equal directions: new_session is
-- for calls with different ones. The mutex makes each call one step.
pub mod Nonces
pub mod Delivery
mod Tests
use sase.Prelude.{
  ℕ, ◌+◌, ◌*◌, ◌%◌, ◌^◌, Bool, true, false, not, List, [], ◌∷◌, ◌++◌, Option, none, some, length,
  take, replicate, ◌==◌, ltb, leb, if◌then◌else◌,
}
use sase.Prelude.Bytes.{Bytes}
use sase.Dptunnel.Frame.{
  Frame, Result, ok, err, put_uint64, header_bytes, marshal, parse_frame, data_body,
  parse_data_body, type_data, type_parity, frame_header_len,
}
use sase.Dptunnel.Replay.{ReplayWindow, empty_window, accept}
use sase.Dptunnel.Fec.{
  FecEncoder, FecDecoder, new_fec_encoder, new_fec_decoder, enabled, peek, add, seal_parity,
  add_data, add_parity,
}

-- cipher.AEAD under one key: nonce, text and additional data; `none` is an authentication failure.
pub record Aead : Type 0 where
  pub seal_text : Bytes → Bytes → Bytes → Bytes
  pub open_text : Bytes → Bytes → Bytes → Option Bytes

abbrev pub rekey_after : ℕ
rekey_after = 2 ^ 48

abbrev pub max_sealed : ℕ
max_sealed = 65535

pub data SealError : Type 0 where
  rekey_required packet_too_large : SealError

pub record Session : Type 0 where
  pub send_dir : ℕ  -- byte
  pub recv_dir : ℕ  -- byte
  pub send_ctr : ℕ  -- uint64
  pub enc : FecEncoder
  pub replay : ReplayWindow
  pub dec : FecDecoder

unfoldable pub new_session : ℕ → ℕ → ℕ → Session
unfolding new_fec_encoder new_fec_decoder empty_window
new_session fec_k send_dir recv_dir = record {
  send_dir = send_dir;
  recv_dir = recv_dir;
  send_ctr = 0;
  enc = new_fec_encoder fec_k;
  replay = empty_window;
  dec = new_fec_decoder;
}

unfoldable pub nonce : ℕ → ℕ → Bytes
nonce dir counter = (dir ∷ replicate 3 0) ++ put_uint64 counter

-- The header's block id, index and size: the encoder's next slot, or a block of one.
unfoldable pub slot : Session → ℕ × ℕ × ℕ
slot s =
    if enabled s.enc
    then (let (id, index) = peek s.enc in (id, index, s.enc.k % 256))
    else (s.send_ctr % 2 ^ 32, 0, 1)

-- The parity frame, where the body filled a block.
unfoldable pub add_to_block : FecEncoder → ℕ → Bytes → FecEncoder × List Bytes
add_to_block e k body =
    if not (enabled e)
    then (e, [])
    else let (e', id, index, done) = add e body in
      if not done
      then (e', [])
      else let (e'', bid, parity) = seal_parity e' in
        (
          e'',
          marshal (record { typ = type_parity; block_id = bid; index = k; k = k; body = parity })
              ∷ [],
        )

pub data SealResult : Type 0 where
  sent : List Bytes → SealResult
  refused : SealError → SealResult

-- The datagrams of a sealed packet, and the encoder after them.
unfoldable pub framed : Session → Bytes → FecEncoder × List Bytes
unfolding slot add_to_block
framed s sealed =
    let (block_id, index, k) = slot s in
    let body = data_body s.send_ctr sealed in
    let (enc, parity) = add_to_block s.enc k body in
    (
      enc,
      marshal (record { typ = type_data; block_id = block_id; index = index; k = k; body = body })
          ∷ parity,
    )

module _ (aead : Aead) where
  unfoldable pub sealed_payload : Session → Bytes → Bytes
  unfolding slot
  sealed_payload s plaintext =
      let (block_id, index, k) = slot s in
      aead.seal_text (nonce s.send_dir s.send_ctr) plaintext
        (header_bytes type_data block_id index k)

  unfoldable pub seal : Session → Bytes → Session × SealResult
  seal s plaintext =
      let sealed = sealed_payload s plaintext in
      if leb rekey_after s.send_ctr
      then (s, refused rekey_required)
      else if ltb max_sealed (length sealed)
      then (s, refused packet_too_large)
      else (
        record s { send_ctr = s.send_ctr + 1; enc = (framed s sealed).0 },
        sent (framed s sealed).1,
      )

  unfoldable pub open_plain : Session → ℕ → Option Bytes → Session × Option Bytes
  open_plain s ctr none = (s, none)
  open_plain s ctr (some plain) =
      let (window, fresh) = accept s.replay ctr in
      (record s { replay = window }, if fresh then some plain else none)

  -- openAndAccept: `none` drops the frame.
  unfoldable pub open_and_accept : Session → Bytes → Bytes → Session × Option Bytes
  unfolding open_plain
  open_and_accept s body aad = elim (parse_data_body body) [
    | err e ↦ (s, none)
    | ok (ctr, sealed) ↦ open_plain s ctr (aead.open_text (nonce s.recv_dir ctr) sealed aad)
  ]

  abbrev deliver : Option Bytes → List Bytes
  deliver none = []
  deliver (some plain) = plain ∷ []

  -- appendRecovered: what a recovered body adds to the delivery.
  unfoldable pub append_recovered : Session → ℕ → ℕ → Option (Bytes × ℕ) → Session × List Bytes
  append_recovered s block_id k none = (s, [])
  append_recovered s block_id k (some (body, missing)) =
      let (s', plain) = open_and_accept s body (header_bytes type_data block_id missing k) in
      (s', deliver plain)

  -- What Open does with a data frame once its body is opened and accepted.
  unfoldable pub after_open : Session → Frame → Option Bytes → Session × List Bytes
  unfolding append_recovered
  after_open s f none = (s, [])
  after_open s f (some pt) =
      if not (enabled s.enc)
      then (s, pt ∷ [])
      else let (dec, rec) = add_data s.dec f.block_id f.k f.index f.body in
        let (s', more) = append_recovered (record s { dec = dec }) f.block_id f.k rec in
        (s', pt ∷ more)

  unfoldable pub open_data : Session → Frame → Bytes → Session × List Bytes
  open_data s f datagram =
      let (s', plain) = open_and_accept s f.body (take frame_header_len datagram) in
      after_open s' f plain

  unfoldable pub open_parity : Session → Frame → Session × List Bytes
  unfolding append_recovered
  open_parity s f =
      if not (enabled s.enc)
      then (s, [])
      else let (dec, rec) = add_parity s.dec f.block_id f.k f.body in
        append_recovered (record s { dec = dec }) f.block_id f.k rec

  -- Open. A datagram that does not parse is the only error.
  unfoldable pub open_datagram : Session → Bytes → Session × Result (List Bytes)
  unfolding open_data open_parity
  open_datagram s datagram = elim (parse_frame datagram) [
    | err e ↦ (s, err e)
    | ok f ↦
        let (s', out) = if f.typ == type_data then open_data s f datagram else open_parity s f in
        (s', ok out)
  ]
