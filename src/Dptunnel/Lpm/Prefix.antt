-- ===== src/Dptunnel/Lpm/Prefix.antt =====
-- The bits of an address that insert and longestPrefix read, against the bytes of a prefix.
use sase.Prelude.{
  ℕ, zero, suc, ◌+◌, ◌-◌, ◌*◌, ◌/◌, ◌%◌, ◌^◌, ◌<◌, ◌≤◌, ◌≡◌, refl, Bool, true, ◌&&◌, [], ◌∷◌, arith,
  length, ◌==◌, ltb, if◌then◌else◌, inl, inr, Bool-cases, ◌∙◌,
}
use native.Mathlib.Nat.{pow-suc, div-div-eq-div-mul}
use sase.Prelude.Bytes.{Bytes, AreBytes}
use sase.Dptunnel.Lpm.{bit_at}
use sase.Dptunnel.Lpm.Depths.{agree}

-- The address begins with the first `ones` bits of the prefix: with its whole bytes, and with the
-- upper bits of the byte in which it ends.
pub begins_with : Bytes → ℕ → Bytes → Bool
begins_with (p ∷ prefix) ones (x ∷ ip) =
    let rest = begins_with prefix (ones - 8) ip in
    if ltb ones 8 then p / 2 ^ (8 - ones) == x / 2 ^ (8 - ones) else p == x && rest
begins_with _ ones _ = true

bit_at_later : (x : ℕ) (ip : Bytes) (i : ℕ) → bit_at (x ∷ ip) (8 + i) ≡ bit_at ip i
unfolding bit_at
bit_at_later x ip i = ground arith

agree_later :
    (p x : ℕ) (prefix ip : Bytes) (n i : ℕ)
    → agree (p ∷ prefix) (x ∷ ip) n (8 + i) ≡ agree prefix ip n i
unfolding agree
agree_later p x prefix ip zero i = refl
agree_later p x prefix ip (suc n) i =
    ground
      (arith, bit_at_later p prefix i, bit_at_later x ip i, agree_later p x prefix ip n (suc i))

agree_split :
    (a b : Bytes) (m n i : ℕ) → agree a b (m + n) i ≡ (agree a b m i && agree a b n (m + i))
unfolding agree
agree_split a b zero n i =
    let e : 0 + n ≡ n = omega arith in let f : 0 + i ≡ i = omega arith in rw (e, f) refl
agree_split a b (suc m) n i =
    let e : suc m + n ≡ suc (m + n) = omega arith in
    let f : suc m + i ≡ m + suc i = omega arith in
    rw (e, f) (ground (arith, agree_split a b m n (suc i)))

module _ (p x : ℕ) (prefix ip : Bytes) (hp : p < 256) (hx : x < 256) where
  same_halves : (a b : ℕ) → (a / 2 == b / 2 && a % 2 == b % 2) ≡ (a == b)
  same_halves a b = ground arith

  one_bit :
      (n : ℕ)
      → n < 8
      → agree (p ∷ prefix) (x ∷ ip) 1 n ≡ (p / 2 ^ (7 - n) % 2 == x / 2 ^ (7 - n) % 2)
  unfolding agree bit_at
  one_bit n h =
      let e : n / 8 ≡ 0 = omega arith in let f : n % 8 ≡ n = omega arith in rw (e, f) (ground arith)

  -- One bit more of the first byte.
  next_bit :
      (n : ℕ)
      → n < 8
      → agree (p ∷ prefix) (x ∷ ip) n 0 ≡ (p / 2 ^ (8 - n) == x / 2 ^ (8 - n))
      → agree (p ∷ prefix) (x ∷ ip) (n + 1) 0 ≡ (p / 2 ^ (7 - n) == x / 2 ^ (7 - n))
  next_bit n h e =
      let k : 8 - n ≡ suc (7 - n) = omega arith in
      let z : n + 0 ≡ n = omega arith in
      rw
        (
          agree_split (p ∷ prefix) (x ∷ ip) n 1 0,
          z,
          one_bit n h,
          e,
          k,
          pow-suc 2 (7 - n),
          ← (div-div-eq-div-mul p (2 ^ (7 - n)) 2),
          ← (div-div-eq-div-mul x (2 ^ (7 - n)) 2),
        )
        (same_halves (p / 2 ^ (7 - n)) (x / 2 ^ (7 - n)))

  first_byte :
      (n : ℕ) → n ≤ 8 → agree (p ∷ prefix) (x ∷ ip) n 0 ≡ (p / 2 ^ (8 - n) == x / 2 ^ (8 - n))
  first_byte zero h = unfold agree in ground arith
  first_byte (suc n) h =
      let e : n + 1 ≡ suc n = omega arith in
      let f : 8 - suc n ≡ 7 - n = omega arith in
      rw (f, ← e) (next_bit n (omega arith) (first_byte n (omega arith)))

-- Comparing the first bits one by one is comparing bytes.
pub agree-begins_with :
    (prefix ip : Bytes) (ones : ℕ)
    → length prefix ≡ length ip
    → ones ≤ length prefix * 8
    → AreBytes prefix
    → AreBytes ip
    → agree prefix ip ones 0 ≡ begins_with prefix ones ip
unfolding begins_with
agree-begins_with [] [] ones e h bp bi =
    let z : ones ≡ 0 = omega arith in rw z (unfold agree in refl)
agree-begins_with [] (x ∷ ip) ones e h bp bi = absurd (omega arith)
agree-begins_with (p ∷ prefix) [] ones e h bp bi = absurd (omega arith)
agree-begins_with (p ∷ prefix) (x ∷ ip) ones e h bp bi = elim (Bool-cases (ltb ones 8)) [
  | inl b ↦ rw b (first_byte p x prefix ip bp.0 bi.0 ones (ground arith))
  | inr b ↦
      let more : 8 + (ones - 8) ≡ ones = ground arith in
      let rest =
        agree-begins_with prefix ip (ones - 8) (omega (arith, e)) (omega (arith, h)) bp.1 bi.1 in
      let split = agree_split (p ∷ prefix) (x ∷ ip) 8 (ones - 8) 0 in
      let whole = first_byte p x prefix ip bp.0 bi.0 8 (omega arith) in
      let later = agree_later p x prefix ip (ones - 8) 0 in
      rw b (rw more at split ∙ ground (arith, whole, later, rest))
]
