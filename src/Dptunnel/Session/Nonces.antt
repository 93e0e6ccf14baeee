-- ===== src/Dptunnel/Session/Nonces.antt =====
-- No nonce is used twice under a session's key.
use native.Mathlib.Nat.{le_refl}
use sase.Prelude.{
  ℕ, length, ltb, Bool-cases, ◌+◌, ◌≤◌, ◌<◌, ◌^◌, ◌≡◌, ◌≢◌, refl, ap, sym, ◌∙◌, ◌⊎◌, inl, inr, List,
  [], ◌∷◌, arith, All, All-imp, get_or, leb, take, drop,
}
use sase.Prelude.Bytes.{Bytes}
use sase.Dptunnel.Frame.{
  uint64_at, put_uint64, put_uint32, put_uint16, header_bytes, marshal, data_body,
}
use sase.Dptunnel.Session.{
  Aead, Session, SealResult, sent, refused, rekey_required, packet_too_large, SealError, nonce,
  seal, rekey_after, sealed_payload, framed, slot,
}

counter-nonce : (dir c : ℕ) → c < 2 ^ 64 → uint64_at (nonce dir c) 4 ≡ c
unfolding nonce uint64_at put_uint64
counter-nonce dir c h = ground arith

direction-nonce : (dir c : ℕ) → get_or (nonce dir c) 0 0 ≡ dir
unfolding nonce
direction-nonce dir c = refl

-- A nonce determines its direction and its counter.
pub nonce_injective :
    (d e a b : ℕ) → a < 2 ^ 64 → b < 2 ^ 64 → nonce d a ≡ nonce e b → (d ≡ e) × (a ≡ b)
nonce_injective d e a b h k p = (
  sym (direction-nonce d a) ∙ ap (λ n. get_or n 0 0) p ∙ direction-nonce e b,
  sym (counter-nonce d a h) ∙ ap (λ n. uint64_at n 4) p ∙ counter-nonce e b k,
)

module _ (aead : Aead) where
  -- What a successful Seal did: below the rekey limit, with a payload that fits its length field.
  pub record Sent (s : Session) (p : Bytes) : Type 0 where
    pub below : s.send_ctr < 2 ^ 48
    pub fits : length (sealed_payload aead s p) < 2 ^ 16
    pub result : seal aead s p ≡ (
      record s { send_ctr = s.send_ctr + 1; enc = (framed s (sealed_payload aead s p)).0 },
      sent (framed s (sealed_payload aead s p)).1,
    )

  -- Seal either sends one data frame, with its parity, and moves the counter by one, or refuses and
  -- changes nothing: at the rekey limit, or for a packet that does not fit.
  pub seal_cases :
      (s : Session) (p : Bytes)
      → Sent s p
        ⊎ (((2 ^ 48 ≤ s.send_ctr) × (seal aead s p ≡ (s, refused rekey_required)))
            ⊎ ((2 ^ 16 ≤ length (sealed_payload aead s p))
                × (seal aead s p ≡ (s, refused packet_too_large))))
  unfolding seal
  seal_cases s p = elim (Bool-cases (leb rekey_after s.send_ctr)) [
    | inl spent ↦ inr (inl (ground arith, rw spent))
    | inr left ↦ elim (Bool-cases (ltb 65535 (length (sealed_payload aead s p)))) [
      | inl large ↦ inr (inr (ground arith, rw (left, large)))
      | inr fit ↦
          inl (record { below = ground arith; fits = ground arith; result = rw (left, fit) })
    ]
  ]

  -- The results of sealing packets one after the other, each with its packet.
  pub seal_all : Session → List Bytes → List (Bytes × SealResult)
  seal_all s [] = []
  seal_all s (p ∷ ps) = let (s', r) = seal aead s p in (p, r) ∷ seal_all s' ps

  -- The packet is what the first datagram carries after its header of 8 bytes, the counter and the
  -- length, encrypted with the nonce and with the header as additional data.
  abbrev pub EncryptedWith : Bytes → Bytes → List Bytes → Type 0
  EncryptedWith n p [] = ⊥
  EncryptedWith n p (d ∷ more) = drop 18 d ≡ aead.seal_text n p (take 8 d)

  -- The nonces, in order, with which the packets that were sent are encrypted.
  abbrev pub NoncesOf : List (Bytes × SealResult) → List Bytes → Type 0
  NoncesOf [] ns = ns ≡ []
  NoncesOf ((p, refused e) ∷ rs) ns = NoncesOf rs ns
  NoncesOf ((p, sent ds) ∷ rs) ns =
      (n : Bytes) × (rest : List Bytes) × (ns ≡ n ∷ rest) × EncryptedWith n p ds × NoncesOf rs rest

  abbrev with_nonce : SealResult → Bytes → List Bytes → List Bytes
  with_nonce (sent ds) n rest = n ∷ rest
  with_nonce (refused e) n rest = rest

  -- The nonces at the counters of a run of Seals, where it sent something.
  nonces_used : Session → List Bytes → List Bytes
  nonces_used s [] = []
  nonces_used s (p ∷ ps) =
      let (s', r) = seal aead s p in with_nonce r (nonce s.send_dir s.send_ctr) (nonces_used s' ps)

  abbrev LaterNonce : Session → Bytes → Type 0
  LaterNonce s n = (c : ℕ) × (s.send_ctr ≤ c) × (c < 2 ^ 48) × (n ≡ nonce s.send_dir c)

  abbrev pub Distinct : List Bytes → Type 0
  Distinct [] = Unit {0}
  Distinct (n ∷ ns) = All (λ m. n ≢ m) ns × Distinct ns

  nonces_used-Sent :
      (s : Session) (p : Bytes) (ps : List Bytes)
      → Sent s p
      → nonces_used s (p ∷ ps) ≡ nonce s.send_dir s.send_ctr ∷ nonces_used (seal aead s p).0 ps
  unfolding nonces_used
  nonces_used-Sent s p ps h =
      ap (λ q. with_nonce q.1 (nonce s.send_dir s.send_ctr) (nonces_used (seal aead s p).0 ps))
        h.result

  nonces_used-refused :
      (s : Session) (p : Bytes) (ps : List Bytes) (e : SealError)
      → seal aead s p ≡ (s, refused e)
      → nonces_used s (p ∷ ps) ≡ nonces_used s ps
  unfolding nonces_used
  nonces_used-refused s p ps e h =
      ap (λ q. with_nonce q.1 (nonce s.send_dir s.send_ctr) (nonces_used q.0 ps)) h

  nonces_used_later : (ps : List Bytes) (s : Session) → All (LaterNonce s) (nonces_used s ps)
  nonces_used_later [] s = unfold nonces_used in tt
  nonces_used_later (p ∷ ps) s = elim (seal_cases s p) [
    | inl h ↦ rw (nonces_used-Sent s p ps h) (
      (s.send_ctr, le_refl s.send_ctr, h.below, refl),
      All-imp (LaterNonce (seal aead s p).0) (LaterNonce s) (λ n later. weaken n later h)
          (nonces_used (seal aead s p).0 ps) (nonces_used_later ps (seal aead s p).0),
    )
    | inr (inl (g, h)) ↦ rw (nonces_used-refused s p ps rekey_required h) (nonces_used_later ps s)
    | inr (inr (g, h)) ↦ rw (nonces_used-refused s p ps packet_too_large h) (nonces_used_later ps s)
  ]
    where
      weaken : (n : Bytes) → LaterNonce (seal aead s p).0 n → Sent s p → LaterNonce s n
      weaken n (c, above, below, e) h = (
        c,
        omega (arith, ap (λ q. q.0.send_ctr) h.result),
        below,
        e ∙ ap (λ q. nonce q.0.send_dir c) h.result,
      )

  nonces_used-Distinct : (ps : List Bytes) (s : Session) → Distinct (nonces_used s ps)
  nonces_used-Distinct [] s = unfold nonces_used in tt
  nonces_used-Distinct (p ∷ ps) s = elim (seal_cases s p) [
    | inl h ↦ rw (nonces_used-Sent s p ps h) (
      All-imp (LaterNonce (seal aead s p).0) (λ m. nonce s.send_dir s.send_ctr ≢ m)
          (λ m later. not_later m later h) (nonces_used (seal aead s p).0 ps)
          (nonces_used_later ps (seal aead s p).0),
      nonces_used-Distinct ps (seal aead s p).0,
    )
    | inr (inl (g, h)) ↦
        rw (nonces_used-refused s p ps rekey_required h) (nonces_used-Distinct ps s)
    | inr (inr (g, h)) ↦
        rw (nonces_used-refused s p ps packet_too_large h) (nonces_used-Distinct ps s)
  ]
    where
      not_later :
          (m : Bytes) → LaterNonce (seal aead s p).0 m → Sent s p → nonce s.send_dir s.send_ctr ≢ m
      not_later m (c, above, below, e) h same =
          let (d, q) =
            nonce_injective s.send_dir (seal aead s p).0.send_dir s.send_ctr c
              (omega (arith, h.below)) (omega arith) (same ∙ e) in
          omega (arith, ap (λ r. r.0.send_ctr) h.result, q)

  carried :
      (s : Session) (p : Bytes)
      → EncryptedWith (nonce s.send_dir s.send_ctr) p (framed s (sealed_payload aead s p)).1
  unfolding framed sealed_payload slot marshal header_bytes data_body put_uint64 put_uint32
      put_uint16
  carried s p = refl

  nonces_used-NoncesOf :
      (ps : List Bytes) (s : Session) → NoncesOf (seal_all s ps) (nonces_used s ps)
  unfolding seal_all
  nonces_used-NoncesOf [] s = unfold nonces_used in refl
  nonces_used-NoncesOf (p ∷ ps) s = elim (seal_cases s p) [
    | inl h ↦
        rw (nonces_used-Sent s p ps h, ap (λ q. q.1) h.result)
          (
            nonce s.send_dir s.send_ctr,
            nonces_used (seal aead s p).0 ps,
            refl,
            carried s p,
            nonces_used-NoncesOf ps (seal aead s p).0,
          )
    | inr (inl (g, h)) ↦
        rw (nonces_used-refused s p ps rekey_required h, h) (nonces_used-NoncesOf ps s)
    | inr (inr (g, h)) ↦
        rw (nonces_used-refused s p ps packet_too_large h, h) (nonces_used-NoncesOf ps s)
  ]

  -- However many packets a session seals one after the other, the nonces with which it encrypted those
  -- that it sent are all different.
  pub seal_all-Distinct :
      (s : Session) (ps : List Bytes)
      → (ns : List Bytes) × NoncesOf (seal_all s ps) ns × Distinct ns
  seal_all-Distinct s ps = (nonces_used s ps, nonces_used-NoncesOf ps s, nonces_used-Distinct ps s)
