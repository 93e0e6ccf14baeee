-- ===== src/Dptunnel/Session/Delivery.antt =====
-- From one end of the tunnel to the other: a sealed packet is delivered once.
use sase.Prelude.{
  ℕ, ◌<◌, ◌^◌, ◌≡◌, refl, sym, ap, ◌∙◌, inl, inr, Bool-cases, true, false, none, some, List, [],
  ◌∷◌, ◌++◌, arith, take, if◌then◌else◌,
}
use sase.Prelude.Bytes.{Bytes}
use sase.Dptunnel.Frame.{
  Frame, ok, marshal, parse_frame, data_body, parse_data_body, header_bytes, type_data, put_uint32,
}
use sase.Dptunnel.Frame.RoundTrip.{parse_frame-marshal, parse_data_body-data_body}
use sase.Dptunnel.Fec.{peek, enabled}
use sase.Dptunnel.Replay.{accept}
use sase.Dptunnel.Session.{
  Aead, Session, seal, sent, refused, rekey_required, packet_too_large, nonce, slot, sealed_payload,
  framed, open_plain, open_and_accept, after_open, open_data, open_datagram,
}
use sase.Dptunnel.Session.Nonces.{Sent, seal_cases}

-- What the tunnel relies on: opening with the key, nonce and additional data of the sealing.
pub record OpensSealed (aead : Aead) : Type 0 where
  pub opens : (n p a : Bytes) → aead.open_text n (aead.seal_text n p a) a ≡ some p

-- The data frame that Seal sends first.
data_frame : Session → Bytes → Frame
data_frame s sealed = record {
  typ = type_data;
  block_id = (slot s).0;
  index = (slot s).1;
  k = (slot s).2;
  body = data_body s.send_ctr sealed;
}

framed-data_frame :
    (s : Session) (sealed : Bytes)
    → (rest : List Bytes) × ((framed s sealed).1 ≡ marshal (data_frame s sealed) ∷ rest)
unfolding framed data_frame
framed-data_frame s sealed = (_, refl)

slot-lt : (s : Session) → s.enc.block_id < 2 ^ 32 → (slot s).0 < 2 ^ 32
unfolding slot peek
slot-lt s h = ground arith

take_header :
    (typ id index k : ℕ) (body : Bytes)
    → take 8 (header_bytes typ id index k ++ body) ≡ header_bytes typ id index k
unfolding header_bytes put_uint32
take_header typ id index k body = refl

open_and_accept_parsed :
    (aead : Aead) (r : Session) (body aad : Bytes) (ctr : ℕ) (sealed : Bytes)
    → parse_data_body body ≡ ok (ctr, sealed)
    → open_and_accept aead r body aad
      ≡ open_plain aead r ctr (aead.open_text (nonce r.recv_dir ctr) sealed aad)
unfolding open_and_accept
open_and_accept_parsed aead r body aad ctr sealed e = rw (e, open_and_accept)

open_datagram_parsed :
    (aead : Aead) (r : Session) (d : Bytes) (f : Frame)
    → parse_frame d ≡ ok f
    → f.typ ≡ type_data
    → (open_datagram aead r d).1 ≡ ok (open_data aead r f d).1
unfolding open_datagram
open_datagram_parsed aead r d f e t = rw (e, open_datagram, t)

after_open_delivers :
    (aead : Aead) (s : Session) (f : Frame) (p : Bytes)
    → (more : List Bytes) × ((after_open aead s f (some p)).1 ≡ p ∷ more)
unfolding after_open
after_open_delivers aead s f p = elim (Bool-cases (enabled s.enc)) [
  | inl e ↦ rw e (_, refl)
  | inr e ↦ rw e ([], refl)
]

open_data_delivers :
    (aead : Aead) (r : Session) (f : Frame) (d p : Bytes)
    → (open_and_accept aead r f.body (take 8 d)).1 ≡ some p
    → (more : List Bytes) × ((open_data aead r f d).1 ≡ p ∷ more)
unfolding open_data
open_data_delivers aead r f d p e =
    let s' = (open_and_accept aead r f.body (take 8 d)).0 in
    let (more, g) = after_open_delivers aead s' f p in
    (more, ap (λ o. (after_open aead s' f o).1) e ∙ g)

open_data_drops :
    (aead : Aead) (r : Session) (f : Frame) (d : Bytes)
    → (open_and_accept aead r f.body (take 8 d)).1 ≡ none
    → open_data aead r f d ≡ ((open_and_accept aead r f.body (take 8 d)).0, [])
unfolding open_data after_open
open_data_drops aead r f d e = ap (after_open aead (open_and_accept aead r f.body (take 8 d)).0 f) e

module _ (aead : Aead) (law : OpensSealed aead) (s r : Session) (p : Bytes)
    (h : Sent aead s p) where
  opened :
      aead.open_text
        (nonce s.send_dir s.send_ctr)
        (sealed_payload aead s p)
        (header_bytes type_data (slot s).0 (slot s).1 (slot s).2)
      ≡ some p
  unfolding sealed_payload
  opened = law.opens _ p _

  mirrored :
      r.recv_dir ≡ s.send_dir
      → aead.open_text
          (nonce r.recv_dir s.send_ctr)
          (sealed_payload aead s p)
          (header_bytes type_data (slot s).0 (slot s).1 (slot s).2)
        ≡ some p
  mirrored mirror = rw mirror opened

  -- Decryption at the other end, through the replay window.
  open_sealed :
      r.recv_dir ≡ s.send_dir
      → open_and_accept aead r
          (data_body s.send_ctr (sealed_payload aead s p))
          (header_bytes type_data (slot s).0 (slot s).1 (slot s).2)
        ≡ (
          record r { replay = (accept r.replay s.send_ctr).0 },
          if (accept r.replay s.send_ctr).1 then some p else none,
        )
  unfolding open_plain
  open_sealed mirror =
      open_and_accept_parsed aead r (data_body s.send_ctr (sealed_payload aead s p))
        (header_bytes type_data (slot s).0 (slot s).1 (slot s).2) s.send_ctr
        (sealed_payload aead s p)
        (parse_data_body-data_body s.send_ctr (sealed_payload aead s p) (omega (arith, h.below))
          h.fits)
      ∙ ap (open_plain aead r s.send_ctr) (mirrored mirror)

  abbrev datagram : Bytes
  datagram = marshal (data_frame s (sealed_payload aead s p))

  parsed :
      s.enc.block_id < 2 ^ 32 → parse_frame datagram ≡ ok (data_frame s (sealed_payload aead s p))
  parsed block_range = parse_frame-marshal (data_frame s (sealed_payload aead s p)) (record {
    known_type = inl (unfold data_frame in refl);
    block_range = unfold data_frame in slot-lt s block_range;
  })

  header : take 8 datagram ≡ header_bytes type_data (slot s).0 (slot s).1 (slot s).2
  unfolding marshal data_frame
  header =
      take_header type_data (slot s).0 (slot s).1 (slot s).2
        (data_body s.send_ctr (sealed_payload aead s p))

  open_frame :
      r.recv_dir ≡ s.send_dir
      → (open_and_accept aead r (data_frame s (sealed_payload aead s p)).body (take 8 datagram)).1
        ≡ (if (accept r.replay s.send_ctr).1 then some p else none)
  open_frame mirror = rw header (unfold data_frame in ap (λ q. q.1) (open_sealed mirror))

  open_fresh :
      r.recv_dir ≡ s.send_dir
      → s.enc.block_id < 2 ^ 32
      → (accept r.replay s.send_ctr).1 ≡ true
      → (more : List Bytes) × ((open_datagram aead r datagram).1 ≡ ok (p ∷ more))
  open_fresh mirror range fresh =
      let (more, e) =
        open_data_delivers aead r (data_frame s (sealed_payload aead s p)) datagram p
          (open_frame mirror ∙ rw fresh) in
      (
        more,
        open_datagram_parsed aead r datagram _ (parsed range) (unfold data_frame in refl) ∙ ap ok e,
      )

  -- When the window refuses the counter, nothing is delivered.
  open_replayed :
      r.recv_dir ≡ s.send_dir
      → s.enc.block_id < 2 ^ 32
      → (accept r.replay s.send_ctr).1 ≡ false
      → (open_datagram aead r datagram).1 ≡ ok []
  open_replayed mirror range stale =
      open_datagram_parsed aead r datagram _ (parsed range) (unfold data_frame in refl)
      ∙ ap (λ q. ok q.1)
          (open_data_drops aead r (data_frame s (sealed_payload aead s p)) datagram
            (open_frame mirror ∙ rw stale))

-- A Seal that sent something sent the data frame first.
seal-data_frame :
    (aead : Aead) (s s' : Session) (p d : Bytes) (more : List Bytes)
    → seal aead s p ≡ (s', sent (d ∷ more))
    → Sent aead s p × (d ≡ marshal (data_frame s (sealed_payload aead s p)))
seal-data_frame aead s s' p d more e = elim (seal_cases aead s p) [
  | inl h ↦
      let (rest, first) = framed-data_frame s (sealed_payload aead s p) in
      let same : sent (framed s (sealed_payload aead s p)).1 ≡ sent (d ∷ more) =
        sym (ap (λ q. q.1) h.result) ∙ ap (λ q. q.1) e in
      (h, cc)
  | inr (inl (g, h)) ↦
      let same : refused rekey_required ≡ sent (d ∷ more) =
        sym (ap (λ q. q.1) h) ∙ ap (λ q. q.1) e in
      absurd (cc)
  | inr (inr (g, h)) ↦
      let same : refused packet_too_large ≡ sent (d ∷ more) =
        sym (ap (λ q. q.1) h) ∙ ap (λ q. q.1) e in
      absurd (cc)
]

-- The first datagram that Seal sends for a packet is opened by the peer to that packet, as the first of
-- what it delivers, when the peer's window takes the counter; the cipher opens what it sealed, the peer
-- receives in the direction in which the session sends, and the block number of the session's encoder
-- fits 32 bits.
pub open-seal :
    (aead : Aead) (law : OpensSealed aead) (s s' r : Session) (p d : Bytes) (more : List Bytes)
    → seal aead s p ≡ (s', sent (d ∷ more))
    → r.recv_dir ≡ s.send_dir
    → s.enc.block_id < 2 ^ 32
    → (accept r.replay s.send_ctr).1 ≡ true
    → (rest : List Bytes) × ((open_datagram aead r d).1 ≡ ok (p ∷ rest))
open-seal aead law s s' r p d more e mirror range fresh =
    let (h, first) = seal-data_frame aead s s' p d more e in
    rw first (open_fresh aead law s r p h mirror range fresh)

-- The same datagram delivers nothing when the window refuses the counter, as after it was opened once.
pub open-seal_replayed :
    (aead : Aead) (law : OpensSealed aead) (s s' r : Session) (p d : Bytes) (more : List Bytes)
    → seal aead s p ≡ (s', sent (d ∷ more))
    → r.recv_dir ≡ s.send_dir
    → s.enc.block_id < 2 ^ 32
    → (accept r.replay s.send_ctr).1 ≡ false
    → (open_datagram aead r d).1 ≡ ok []
open-seal_replayed aead law s s' r p d more e mirror range stale =
    let (h, first) = seal-data_frame aead s s' p d more e in
    rw first (open_replayed aead law s r p h mirror range stale)
