-- ===== src/Cred/Offline.antt =====
-- What a point of presence learns from a credential without asking the control plane.
use sase.Prelude.{
  ℕ, ◌/◌, ◌^◌, ◌<◌, ◌∙◌, List, Any, Any-imp, ◌+◌, ◌≡◌, refl, sym, ap, arith, true, false,
  Bool-cases, inl, inr, [], ◌∷◌, ◌++◌, Option, none, some, Option-cases, All, if◌then◌else◌, leb,
  ◌==◌,
}
use mathlib.Core.Option.{some-injective}
use sase.Prelude.Bytes.{Bytes}
use sase.Prelude.Result.{ok, err, ok-injective}
use sase.Cred.{
  Claims, malformed, bad_signature, expired, Codec, Scheme, unix, dot, before_dot, split_dot,
  stamped, joined, signed, issue, in_time, verify_decoded, verify_parts, verify,
}

-- What the code relies on: encodings that are undone, base64 without a dot, and signatures that the
-- public key accepts.
pub record IsFaithful (codec : Codec) (scheme : Scheme) : Type 0 where
  pub unmarshal-marshal :
      (c : Claims) (b : Bytes) → codec.marshal c ≡ some b → codec.unmarshal b ≡ some c
  pub unb64-b64 : (b : Bytes) → codec.unb64 (codec.b64 b) ≡ some b
  pub b64_dot : (b : Bytes) → All (λ x. (x == dot) ≡ false) (codec.b64 b)
  pub accepts : (p sig : Bytes) → scheme.sign p ≡ some sig → scheme.verify p sig ≡ true

split_dot-append :
    (a b : Bytes) → All (λ x. (x == dot) ≡ false) a → split_dot (a ++ (dot ∷ b)) ≡ some (a, b)
unfolding split_dot before_dot
split_dot-append [] b h = refl
split_dot-append (x ∷ a) b h = rw (h.0, split_dot-append a b h.1) refl

module _ (codec : Codec) (scheme : Scheme) (law : IsFaithful codec scheme) where
  -- A credential that was issued is accepted until its time is over, with the claims that were issued
  -- and the times of issue and of expiry, and is refused as expired from then on.
  pub verify-issue :
      (c : Claims) (ttl now later : ℕ) (token : Bytes)
      → issue codec scheme c ttl now ≡ ok token
      → verify codec scheme token later ≡ (
          if leb (unix (now + ttl)) (unix later)
          then err expired
          else ok (stamped codec scheme c ttl now))
  unfolding issue signed joined verify verify_parts verify_decoded in_time stamped
  verify-issue c ttl now later token e =
      elim (Option-cases (codec.marshal (stamped codec scheme c ttl now))) [
        | inl n ↦ ground arith
        | inr (payload, p) ↦ elim (Option-cases (scheme.sign payload)) [
          | inl n ↦ ground arith
          | inr (sig, s) ↦
              let form : ok (codec.b64 payload ++ (dot ∷ codec.b64 sig)) ≡ ok token =
                rw (p, s) at e in
              let text : codec.b64 payload ++ (dot ∷ codec.b64 sig) ≡ token =
                ok-injective _ token (ok token) (sym form) refl in
              rw
                (
                  ← text,
                  split_dot-append (codec.b64 payload) (codec.b64 sig) (law.b64_dot payload),
                  law.unb64-b64 payload,
                  law.unb64-b64 sig,
                  law.accepts payload sig s,
                  law.unmarshal-marshal (stamped codec scheme c ttl now) payload p,
                )
                refl
        ]
      ]

module _ (codec : Codec) (scheme : Scheme) where
  -- What a credential that is accepted was: two parts around its first dot, of which the first encodes
  -- a payload that the public key accepts with the second, and claims whose time is not over.
  record IsVouched (token : Bytes) (now : ℕ) (c : Claims) : Type 0 where
    head : Bytes
    tail : Bytes
    payload : Bytes
    sig : Bytes
    parts : split_dot token ≡ some (head, tail)
    decoded : (codec.unb64 head ≡ some payload) × (codec.unb64 tail ≡ some sig)
    accepted : scheme.verify payload sig ≡ true
    claims : codec.unmarshal payload ≡ some c
    not_expired : leb c.expire_at (unix now) ≡ false

  in_time-ok :
      (now : ℕ) (o : Option Claims) (c : Claims)
      → in_time codec scheme now o ≡ ok c
      → (o ≡ some c) × (leb c.expire_at (unix now) ≡ false)
  unfolding in_time
  in_time-ok now none c h = absurd (cc)
  in_time-ok now (some d) c h = elim (Bool-cases (leb d.expire_at (unix now))) [
    | inl b ↦ let h' : err expired ≡ ok c = rw b at h in absurd (cc)
    | inr b ↦
        let h' : ok d ≡ ok c = rw b at h in
        let same : d ≡ c = ok-injective d c (ok d) refl h' in (ap some same, rw (← same) b)
  ]

  verify-IsVouched :
      (token : Bytes) (now : ℕ) (c : Claims)
      → verify codec scheme token now ≡ ok c
      → IsVouched token now c
  unfolding verify verify_parts verify_decoded
  verify-IsVouched token now c h = elim (Option-cases (split_dot token)) [
    | inl n ↦ let h' : err malformed ≡ ok c = rw n at h in absurd (cc)
    | inr (parts, p) ↦ elim (Option-cases (codec.unb64 parts.0)) [
      | inl n ↦ let h' : err malformed ≡ ok c = rw (p, n) at h in absurd (cc)
      | inr (payload, q) ↦ elim (Option-cases (codec.unb64 parts.1)) [
        | inl n ↦ let h' : err malformed ≡ ok c = rw (p, q, n) at h in absurd (cc)
        | inr (sig, r) ↦ elim (Bool-cases (scheme.verify payload sig)) [
          | inl v ↦
              let h' : in_time codec scheme now (codec.unmarshal payload) ≡ ok c =
                rw (p, q, r, v) at h in
              let (claims, fresh) = in_time-ok now (codec.unmarshal payload) c h' in
              record {
                head = parts.0;
                tail = parts.1;
                payload = payload;
                sig = sig;
                parts = p;
                decoded = (q, r);
                accepted = v;
                claims = claims;
                not_expired = fresh;
              }
          | inr v ↦ let h' : err bad_signature ≡ ok c = rw (p, q, r, v) at h in absurd (cc)
        ]
      ]
    ]
  ]

-- One call of Issue: its claims, how long they hold, and when it was made.
pub record Issuance : Type 0 where
  pub claims : Claims
  pub ttl : ℕ
  pub at : ℕ

-- The claims of an issuance with its times, in seconds.
abbrev pub issued_claims : Issuance → Claims
issued_claims i = record i.claims { issued_at = i.at / 10 ^ 9; expire_at = (i.at + i.ttl) / 10 ^ 9 }

-- What a signature scheme promises: the public key accepts only payloads that were signed, which are
-- those of the issuances.
pub record Unforgeable (codec : Codec) (scheme : Scheme) (issuances : List Issuance) : Type 0 where
  pub was_signed :
      (payload sig : Bytes)
      → scheme.verify payload sig ≡ true
      → Any (λ i. codec.marshal (issued_claims i) ≡ some payload) issuances

still_valid :
    (i : Issuance) (now : ℕ) (c : Claims)
    → c ≡ issued_claims i
    → leb c.expire_at (unix now) ≡ false
    → now / 10 ^ 9 < (i.at + i.ttl) / 10 ^ 9
unfolding unix
still_valid i now c same fresh =
    let e : c.expire_at ≡ (i.at + i.ttl) / 10 ^ 9 = ap (λ x. x.expire_at) same in
    let left : leb ((i.at + i.ttl) / 10 ^ 9) (now / 10 ^ 9) ≡ false = rw (← e) fresh in ground arith

-- Under a scheme that accepts only what was signed, the credentials that Verify accepts carry the claims
-- of an issuance, with its times, and that issuance is not over.
pub verify-issued :
    (codec : Codec) (scheme : Scheme) (law : IsFaithful codec scheme) (issuances : List Issuance)
    (signed_only : Unforgeable codec scheme issuances) (token : Bytes) (now : ℕ) (c : Claims)
    → verify codec scheme token now ≡ ok c
    → Any (λ i. (c ≡ issued_claims i) × (now / 10 ^ 9 < (i.at + i.ttl) / 10 ^ 9)) issuances
verify-issued codec scheme law issuances signed_only token now c h =
    let v = verify-IsVouched codec scheme token now c h in
    Any-imp (λ i. codec.marshal (issued_claims i) ≡ some v.payload)
      (λ i. (c ≡ issued_claims i) × (now / 10 ^ 9 < (i.at + i.ttl) / 10 ^ 9))
      (λ i e.
        let decoded = law.unmarshal-marshal (issued_claims i) v.payload e in
        let same : c ≡ issued_claims i =
          some-injective c (issued_claims i) (sym v.claims ∙ decoded) in
        (same, still_valid i now c same v.not_expired))
      issuances (signed_only.was_signed v.payload v.sig v.accepted)
