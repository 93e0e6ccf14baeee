-- ===== src/Cred/Tests.antt =====
-- A credential under a small codec: each field with its length before it, base64 as a shift past the
-- dot, and the payload itself as its signature.
use sase.Prelude.{
  ℕ, ◌/◌, ◌^◌, ◌<◌, true, ◌&&◌, &&-true, Any, Bool-cases, inl, inr, sym, zero, suc, ◌+◌, ◌-◌, ◌≡◌,
  refl, ap, arith, false, List, [], ◌∷◌, ◌++◌, Option, none, some, length, take, drop, All, leb,
  ◌==◌, if◌then◌else◌,
}
use mathlib.Core.Option.{some-injective}
use sase.Prelude.Bytes.{Bytes, bytes, beq, beq_iff, beq_refl}
use sase.Prelude.Int.{ℤ, pos, negsuc}
use sase.Prelude.Result.{ok, err}
use sase.Cred.{Claims, expired, Codec, Scheme, unix, dot, stamped, joined, signed, issue, verify}
use sase.Cred.Offline.{
  IsFaithful, verify-issue, Issuance, issued_claims, Unforgeable, verify-issued,
}

encode_fields : List Bytes → Bytes
encode_fields [] = []
encode_fields (b ∷ bs) = length b ∷ (b ++ encode_fields bs)

decode_fields : ℕ → Bytes → List Bytes
decode_fields zero r = []
decode_fields (suc n) [] = []
decode_fields (suc n) (k ∷ r) = take k r ∷ decode_fields n (drop k r)

take_front : (xs ys : Bytes) → take (length xs) (xs ++ ys) ≡ xs
take_front [] ys = refl
take_front (x ∷ xs) ys = ap (◌∷◌ x) (take_front xs ys)

drop_front : (xs ys : Bytes) → drop (length xs) (xs ++ ys) ≡ ys
drop_front [] ys = refl
drop_front (x ∷ xs) ys = drop_front xs ys

decode_fields-encode_fields : (bs : List Bytes) → decode_fields (length bs) (encode_fields bs) ≡ bs
unfolding decode_fields encode_fields
decode_fields-encode_fields [] = refl
decode_fields-encode_fields (b ∷ bs) =
    rw
      (
        take_front b (encode_fields bs),
        drop_front b (encode_fields bs),
        decode_fields-encode_fields bs,
      )
      refl

score_field : ℤ → Bytes
score_field (pos n) = 0 ∷ n ∷ []
score_field (negsuc n) = 1 ∷ n ∷ []

score_of : ℕ → ℕ → ℤ
score_of zero n = pos n
score_of (suc s) n = negsuc n

fields : Claims → List Bytes
fields c =
    c.jti
    ∷ c.tenant_id
    ∷ c.subject
    ∷ c.posture
    ∷ c.role
    ∷ c.risk_level
    ∷ (c.issued_at ∷ c.expire_at ∷ [])
    ∷ score_field c.risk_score
    ∷ c.groups

claims_of : List Bytes → Option Claims
claims_of (j ∷ t ∷ s ∷ p ∷ r ∷ l ∷ (i ∷ e ∷ []) ∷ (sign ∷ n ∷ []) ∷ groups) = some (record {
  jti = j;
  tenant_id = t;
  subject = s;
  groups = groups;
  posture = p;
  role = r;
  risk_score = score_of sign n;
  risk_level = l;
  issued_at = i;
  expire_at = e;
})
claims_of _ = none

claims_of-fields : (c : Claims) (score : ℤ) → c.risk_score ≡ score → claims_of (fields c) ≡ some c
unfolding claims_of fields score_field score_of
claims_of-fields c (pos n) e = rw e refl
claims_of-fields c (negsuc n) e = rw e refl

unmarshal_test : Bytes → Option Claims
unmarshal_test [] = none
unmarshal_test (n ∷ b) = claims_of (decode_fields n b)

shift : Bytes → Bytes
shift [] = []
shift (x ∷ b) = (x + 47) ∷ shift b

unshift : Bytes → Bytes
unshift [] = []
unshift (x ∷ b) = (x - 47) ∷ unshift b

unshift-shift : (b : Bytes) → unshift (shift b) ≡ b
unfolding unshift shift
unshift-shift [] = refl
unshift-shift (x ∷ b) = ground (arith, unshift-shift b)

shift-dot : (b : Bytes) → All (λ x. (x == dot) ≡ false) (shift b)
unfolding shift
shift-dot [] = tt
shift-dot (x ∷ b) = (ground arith, shift-dot b)

abbrev test_codec : Codec
test_codec = record {
  marshal = λ c. some (length (fields c) ∷ encode_fields (fields c));
  unmarshal = unmarshal_test;
  b64 = shift;
  unb64 = λ b. some (unshift b);
}

abbrev test_scheme : Scheme
test_scheme = record { sign = λ p. some p; verify = λ p sig. beq p sig }

test-IsFaithful : IsFaithful test_codec test_scheme
unfolding unmarshal_test
test-IsFaithful = record {
  unmarshal-marshal = λ c b e.
      rw (← (some-injective _ b e), decode_fields-encode_fields (fields c))
        (claims_of-fields c c.risk_score refl);
  unb64-b64 = λ b. ap some (unshift-shift b);
  b64_dot = shift-dot;
  accepts = λ p sig e. rw (← (some-injective p sig e)) (beq_refl p);
}

abbrev test_claims : Claims
test_claims = record {
  jti = bytes "j";
  tenant_id = bytes "t";
  subject = bytes "u";
  groups = [];
  posture = [];
  role = [];
  risk_score = pos 0;
  risk_level = [];
  issued_at = 0;
  expire_at = 0;
}

abbrev test_token : Bytes
test_token =
    let p =
      length (fields (stamped test_codec test_scheme test_claims 1000000000 0))
      ∷ encode_fields (fields (stamped test_codec test_scheme test_claims 1000000000 0)) in
    shift p ++ (dot ∷ shift p)

issued : issue test_codec test_scheme test_claims 1000000000 0 ≡ ok test_token
unfolding issue signed joined
issued = refl

verify-issue_example : verify test_codec test_scheme test_token 5 ≡ (
    if leb (unix (0 + 1000000000)) (unix 5)
    then err expired
    else ok (stamped test_codec test_scheme test_claims 1000000000 0))
verify-issue_example =
    verify-issue test_codec test_scheme test-IsFaithful test_claims 1000000000 0 5 test_token issued

abbrev test_issuance : Issuance
test_issuance = record { claims = test_claims; ttl = 1000000000; at = 0 }

abbrev test_payload : Bytes
test_payload =
    length (fields (issued_claims test_issuance))
    ∷ encode_fields (fields (issued_claims test_issuance))

-- A scheme that signs the test's payload and nothing else.
abbrev one_payload : Scheme
one_payload = record {
  sign = λ p. if beq p test_payload then some p else none;
  verify = λ p sig. beq p test_payload && beq p sig;
}

one_payload-IsFaithful : IsFaithful test_codec one_payload
one_payload-IsFaithful = record {
  unmarshal-marshal = test-IsFaithful.unmarshal-marshal;
  unb64-b64 = test-IsFaithful.unb64-b64;
  b64_dot = test-IsFaithful.b64_dot;
  accepts = λ p sig e. accepted p sig e;
}
  where
    accepted :
        (p sig : Bytes)
        → (if beq p test_payload then some p else none) ≡ some sig
        → (beq p test_payload && beq p sig) ≡ true
    accepted p sig e = elim (Bool-cases (beq p test_payload)) [
      | inl b ↦
          let same : some p ≡ some sig = rw b at e in
          rw (b, ← (some-injective p sig same)) (beq_refl p)
      | inr b ↦ let none_signed : none ≡ some sig = rw b at e in absurd (cc)
    ]

one_payload-Unforgeable : Unforgeable test_codec one_payload (test_issuance ∷ [])
one_payload-Unforgeable = record {
  was_signed = λ payload sig v.
      let same =
        (beq_iff payload test_payload).0
          (&&-true (beq payload test_payload) (beq payload sig) v).0 in
      inl (ap some (sym same));
}

one_payload_issued : issue test_codec one_payload test_claims 1000000000 0 ≡ ok test_token
unfolding issue signed joined beq shift fields encode_fields stamped unix score_field
one_payload_issued = refl

one_payload_accepts : verify test_codec one_payload test_token 5 ≡ ok (issued_claims test_issuance)
unfolding unix stamped
one_payload_accepts =
    verify-issue test_codec one_payload one_payload-IsFaithful test_claims 1000000000 0 5 test_token
      one_payload_issued

verify-issued_example :
    Any
      (λ i.
        (issued_claims test_issuance ≡ issued_claims i) × (5 / 10 ^ 9 < (i.at + i.ttl) / 10 ^ 9))
      (test_issuance ∷ [])
verify-issued_example =
    verify-issued test_codec one_payload one_payload-IsFaithful (test_issuance ∷ [])
      one_payload-Unforgeable test_token 5 (issued_claims test_issuance) one_payload_accepts
