-- ===== src/Prelude/Int.antt =====
-- Go's int: signed numbers, their order, and strconv.Itoa. Wrap-around is not modelled: the code
-- compares and prints the ints that this module stands for, and adds to none of them.
use Prim.Native.Nat.{ℕ, zero, suc, ◌+◌, ◌/◌, ◌%◌}
use mathlib.Core.Path.{◌≡◌, refl}
use mathlib.Core.Bool.{Bool, true, false}
use mathlib.Core.List.{[], ◌∷◌}
use native.Mathlib.Omega.{arith}
use sase.Prelude.Tests.{◌==◌, ltb, if◌then◌else◌}
use sase.Prelude.Bytes.{Bytes}

-- `negsuc n` is -(n + 1).
pub data ℤ : Type 0 where
  pos : ℕ → ℤ
  negsuc : ℕ → ℤ

abbrev pub lt_int : ℤ → ℤ → Bool
lt_int (pos a) (pos b) = ltb a b
lt_int (pos a) (negsuc b) = false
lt_int (negsuc a) (pos b) = true
lt_int (negsuc a) (negsuc b) = ltb b a

abbrev pub eq_int : ℤ → ℤ → Bool
eq_int (pos a) (pos b) = a == b
eq_int (negsuc a) (negsuc b) = a == b
eq_int _ _ = false

pub lt_int_trans : (a b c : ℤ) → lt_int a b ≡ true → lt_int b c ≡ true → lt_int a c ≡ true
lt_int_trans (pos a) (pos b) (pos c) h k = ground arith
lt_int_trans (pos a) (pos b) (negsuc c) h k = ground arith
lt_int_trans (pos a) (negsuc b) c h k = ground arith
lt_int_trans (negsuc a) (pos b) (pos c) h k = refl
lt_int_trans (negsuc a) (pos b) (negsuc c) h k = ground arith
lt_int_trans (negsuc a) (negsuc b) (pos c) h k = refl
lt_int_trans (negsuc a) (negsuc b) (negsuc c) h k = ground arith

pub lt_int_irrefl : (a : ℤ) → lt_int a a ≡ false
lt_int_irrefl (pos a) = ground arith
lt_int_irrefl (negsuc a) = ground arith

pub lt_int_tie : (a b : ℤ) → lt_int a b ≡ false → lt_int b a ≡ false → a ≡ b
lt_int_tie (pos a) (pos b) h k = ground arith
lt_int_tie (pos a) (negsuc b) h k = ground arith
lt_int_tie (negsuc a) (pos b) h k = ground arith
lt_int_tie (negsuc a) (negsuc b) h k = ground arith

pub eq_int→eq : (a b : ℤ) → eq_int a b ≡ true → a ≡ b
eq_int→eq (pos a) (pos b) h = ground arith
eq_int→eq (pos a) (negsuc b) h = ground arith
eq_int→eq (negsuc a) (pos b) h = ground arith
eq_int→eq (negsuc a) (negsuc b) h = ground arith

pub eq_int_refl : (a : ℤ) → eq_int a a ≡ true
eq_int_refl (pos a) = ground arith
eq_int_refl (negsuc a) = ground arith

-- The decimal digits of n, with fuel above n.
decimal : ℕ → ℕ → Bytes → Bytes
decimal zero n acc = acc
decimal (suc f) n acc =
    let digit = 48 + n % 10 in
    let rest = decimal f (n / 10) (digit ∷ acc) in if ltb n 10 then digit ∷ acc else rest

-- strconv.Itoa
unfoldable pub itoa : ℤ → Bytes
unfolding decimal
itoa (pos n) = decimal (suc n) n []
itoa (negsuc n) = 45 ∷ decimal (suc (suc n)) (suc n) []

pub lt_int_asym : (a b : ℤ) → lt_int a b ≡ true → lt_int b a ≡ false
lt_int_asym (pos a) (pos b) h = ground arith
lt_int_asym (pos a) (negsuc b) h = ground arith
lt_int_asym (negsuc a) (pos b) h = refl
lt_int_asym (negsuc a) (negsuc b) h = ground arith

pub lt_int_le_trans : (a b c : ℤ) → lt_int b a ≡ false → lt_int c b ≡ false → lt_int c a ≡ false
lt_int_le_trans (pos a) (pos b) (pos c) h k = ground arith
lt_int_le_trans (pos a) (negsuc b) c h k = ground arith
lt_int_le_trans (pos a) (pos b) (negsuc c) h k = ground arith
lt_int_le_trans (negsuc a) (pos b) (pos c) h k = refl
lt_int_le_trans (negsuc a) (pos b) (negsuc c) h k = ground arith
lt_int_le_trans (negsuc a) (negsuc b) (pos c) h k = refl
lt_int_le_trans (negsuc a) (negsuc b) (negsuc c) h k = ground arith
