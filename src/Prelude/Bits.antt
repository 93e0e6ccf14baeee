-- ===== src/Prelude/Bits.antt =====
-- Laws of the native bit operations at variables, digit by digit.
use Prim.Native.Nat.{
  ℕ, zero, suc, ◌+◌, ◌-◌, ◌*◌, ◌/◌, ◌%◌, ◌^◌, ◌≤◌, ◌<◌, min, max, bit_and, bit_or, bit_xor, digits,
  bit_and-bitwise, bit_or-bitwise, bit_xor-bitwise, differ,
}
use mathlib.Core.Path.{◌≡◌, refl, sym, ap, ◌∙◌}
use native.Mathlib.Nat.{pow-suc, div-add-mod}
use native.Mathlib.Omega.{arith}
use sase.Prelude.Tests.{◌==◌, ltb, if◌then◌else◌}

-- The digit `i` of a number, from the lowest.
unfoldable pub nth_bit : ℕ → ℕ → ℕ
nth_bit zero a = a % 2
nth_bit (suc i) a = nth_bit i (a / 2)

pub nth_bit-lt : (i a : ℕ) → nth_bit i a < 2
unfolding nth_bit
nth_bit-lt zero a = omega arith
nth_bit-lt (suc i) a = nth_bit-lt i (a / 2)

-- The fuel of the recursion on digits does not matter once it reaches the first number.
more_fuel :
    (stop : ℕ → ℕ) (f : ℕ → ℕ → ℕ) (n m a b : ℕ)
    → a ≤ n
    → a ≤ m
    → digits stop f n a b ≡ digits stop f m a b
more_fuel stop f zero zero a b h k = refl
more_fuel stop f zero (suc m) zero b h k = refl
more_fuel stop f zero (suc m) (suc a) b h k = absurd (omega arith)
more_fuel stop f (suc n) zero zero b h k = refl
more_fuel stop f (suc n) zero (suc a) b h k = absurd (omega arith)
more_fuel stop f (suc n) (suc m) zero b h k = refl
more_fuel stop f (suc n) (suc m) (suc a) b h k =
    rw (more_fuel stop f n m (suc a / 2) (b / 2) (omega arith) (omega arith))

pub bit_or_halves : (a b : ℕ) → bit_or a b ≡ bit_or (a / 2) (b / 2) * 2 + max (a % 2) (b % 2)
bit_or_halves zero b = omega (arith, bit_or-bitwise 0 b, bit_or-bitwise 0 (b / 2))
bit_or_halves (suc a) b = omega (
  arith,
  bit_or-bitwise (suc a) b,
  bit_or-bitwise (suc a / 2) (b / 2),
  more_fuel (λ y. y) max a (suc a / 2) (suc a / 2) (b / 2) (omega arith) (omega arith),
)

pub bit_and_halves : (a b : ℕ) → bit_and a b ≡ bit_and (a / 2) (b / 2) * 2 + min (a % 2) (b % 2)
bit_and_halves zero b = omega (arith, bit_and-bitwise 0 b, bit_and-bitwise 0 (b / 2))
bit_and_halves (suc a) b = omega (
  arith,
  bit_and-bitwise (suc a) b,
  bit_and-bitwise (suc a / 2) (b / 2),
  more_fuel (λ y. 0) min a (suc a / 2) (suc a / 2) (b / 2) (omega arith) (omega arith),
)

pub nth_bit-bit_or : (i a b : ℕ) → nth_bit i (bit_or a b) ≡ max (nth_bit i a) (nth_bit i b)
unfolding nth_bit
nth_bit-bit_or zero a b = omega (arith, bit_or_halves a b)
nth_bit-bit_or (suc i) a b =
    let e : bit_or a b / 2 ≡ bit_or (a / 2) (b / 2) = omega (arith, bit_or_halves a b) in
    rw e (nth_bit-bit_or i (a / 2) (b / 2))

bit_and_zero_below : (n a : ℕ) → a ≤ n → bit_and a 0 ≡ 0
bit_and_zero_below n zero h = refl
bit_and_zero_below zero (suc a) h = absurd (omega arith)
bit_and_zero_below (suc n) (suc a) h =
    omega (arith, bit_and_halves (suc a) 0, bit_and_zero_below n (suc a / 2) (omega arith))

pub bit_and_zero : (a : ℕ) → bit_and a 0 ≡ 0
bit_and_zero a = bit_and_zero_below a a (omega arith)

-- a & (1 << d)
pub bit_and_pow : (d a : ℕ) → bit_and a (2 ^ d) ≡ nth_bit d a * 2 ^ d
unfolding nth_bit
bit_and_pow zero a = omega (arith, bit_and_halves a 1, bit_and_zero (a / 2))
bit_and_pow (suc d) a = ground (
  arith,
  pow-suc 2 d,
  bit_and_halves a (2 ^ suc d),
  bit_and_pow d (a / 2),
  ap (λ (t : ℕ). nth_bit d (a / 2) * t) (pow-suc 2 d),
)

double_pow : (a k : ℕ) → a * 2 ^ suc k ≡ a * 2 ^ k * 2
double_pow a k = omega (arith, ap (λ (t : ℕ). a * t) (pow-suc 2 k))

-- a << k
pub nth_bit-shift : (i k a : ℕ) → nth_bit i (a * 2 ^ k) ≡ (if ltb i k then 0 else nth_bit (i - k) a)
unfolding nth_bit
nth_bit-shift i zero a =
    let e : a * 1 ≡ a = omega arith in let f : i - 0 ≡ i = omega arith in rw (e, f) (ground arith)
nth_bit-shift zero (suc k) a = ground (arith, double_pow a k)
nth_bit-shift (suc i) (suc k) a =
    let e : a * 2 ^ suc k / 2 ≡ a * 2 ^ k = omega (arith, double_pow a k) in
    let f : suc i - suc k ≡ i - k = omega arith in rw (e, f) (nth_bit-shift i k a ∙ ground arith)

nth_bit_low : (i w q r : ℕ) → i < w → nth_bit i (q * 2 ^ w + r) ≡ nth_bit i r
unfolding nth_bit
nth_bit_low i zero q r h = absurd (omega arith)
nth_bit_low zero (suc w) q r h = omega (arith, double_pow q w)
nth_bit_low (suc i) (suc w) q r h =
    let e : (q * 2 ^ suc w + r) / 2 ≡ q * 2 ^ w + r / 2 = omega (arith, double_pow q w) in
    rw e (nth_bit_low i w q (r / 2) (omega arith))

-- Cutting a number to `w` bits keeps those bits.
pub nth_bit-mod : (i w a : ℕ) → i < w → nth_bit i (a % 2 ^ w) ≡ nth_bit i a
nth_bit-mod i w a h =
    sym (nth_bit_low i w (a / 2 ^ w) (a % 2 ^ w) h)
    ∙ ap (nth_bit i) (omega (arith, div-add-mod a (2 ^ w)))

nth_bit-zero : (i : ℕ) → nth_bit i 0 ≡ 0
unfolding nth_bit
nth_bit-zero zero = refl
nth_bit-zero (suc i) = nth_bit-zero i

differ_small : (a b : ℕ) → a < 2 → b < 2 → differ a b ≡ (a + b) % 2
differ_small zero zero h k = refl
differ_small zero (suc zero) h k = refl
differ_small (suc zero) zero h k = refl
differ_small (suc zero) (suc zero) h k = refl
differ_small zero (suc (suc b)) h k = absurd (omega arith)
differ_small (suc zero) (suc (suc b)) h k = absurd (omega arith)
differ_small (suc (suc a)) b h k = absurd (omega arith)

differ_two : (a b : ℕ) → differ (a % 2) (b % 2) ≡ (a % 2 + b % 2) % 2
differ_two a b = ground (arith, differ_small (a % 2) (b % 2))

pub nth_bit-one : (i : ℕ) → nth_bit i 1 ≡ (if i == 0 then 1 else 0)
unfolding nth_bit
nth_bit-one zero = refl
nth_bit-one (suc i) = nth_bit-zero i ∙ ground arith

-- 1 << d
pub nth_bit-pow : (i d : ℕ) → nth_bit i (2 ^ d) ≡ (if i == d then 1 else 0)
nth_bit-pow i d =
    let e : 2 ^ d ≡ 1 * 2 ^ d = omega arith in
    rw (e, nth_bit-shift i d 1, nth_bit-one (i - d)) (ground arith)

pub bit_xor_halves : (a b : ℕ) → bit_xor a b ≡ bit_xor (a / 2) (b / 2) * 2 + differ (a % 2) (b % 2)
bit_xor_halves zero b =
    ground (arith, bit_xor-bitwise 0 b, bit_xor-bitwise 0 (b / 2), differ_two 0 b)
bit_xor_halves (suc a) b = omega (
  arith,
  bit_xor-bitwise (suc a) b,
  bit_xor-bitwise (suc a / 2) (b / 2),
  more_fuel (λ y. y) differ a (suc a / 2) (suc a / 2) (b / 2) (omega arith) (omega arith),
)

pub nth_bit-bit_xor : (i a b : ℕ) → nth_bit i (bit_xor a b) ≡ (nth_bit i a + nth_bit i b) % 2
unfolding nth_bit
nth_bit-bit_xor zero a b = omega (arith, bit_xor_halves a b, differ_two a b)
nth_bit-bit_xor (suc i) a b =
    let e : bit_xor a b / 2 ≡ bit_xor (a / 2) (b / 2) =
      omega (arith, bit_xor_halves a b, differ_two a b) in
    rw e (nth_bit-bit_xor i (a / 2) (b / 2))

nth_bit_ext_below : (n a b : ℕ) → a ≤ n → b ≤ n → ((i : ℕ) → nth_bit i a ≡ nth_bit i b) → a ≡ b
unfolding nth_bit
nth_bit_ext_below zero a b h k e = omega arith
nth_bit_ext_below (suc n) a b h k e =
    omega
      (arith, e 0, nth_bit_ext_below n (a / 2) (b / 2) (omega arith) (omega arith) (λ i. e (suc i)))

-- Two numbers with the same bits are equal.
pub nth_bit_ext : (a b : ℕ) → ((i : ℕ) → nth_bit i a ≡ nth_bit i b) → a ≡ b
nth_bit_ext a b = nth_bit_ext_below (a + b) a b (omega arith) (omega arith)

pub bit_xor_comm : (a b : ℕ) → bit_xor a b ≡ bit_xor b a
bit_xor_comm a b =
    nth_bit_ext (bit_xor a b) (bit_xor b a)
      (λ i. omega (arith, nth_bit-bit_xor i a b, nth_bit-bit_xor i b a))

pub bit_xor_assoc : (a b c : ℕ) → bit_xor (bit_xor a b) c ≡ bit_xor a (bit_xor b c)
bit_xor_assoc a b c = nth_bit_ext (bit_xor (bit_xor a b) c) (bit_xor a (bit_xor b c)) (λ i. omega (
  arith,
  nth_bit-bit_xor i (bit_xor a b) c,
  nth_bit-bit_xor i a b,
  nth_bit-bit_xor i a (bit_xor b c),
  nth_bit-bit_xor i b c,
))

pub zero-bit_xor : (a : ℕ) → bit_xor 0 a ≡ a
zero-bit_xor a =
    nth_bit_ext (bit_xor 0 a) a
      (λ i. omega (arith, nth_bit-bit_xor i 0 a, nth_bit-zero i, nth_bit-lt i a))

pub bit_xor_cancel : (a b : ℕ) → bit_xor a (bit_xor a b) ≡ b
bit_xor_cancel a b =
    nth_bit_ext (bit_xor a (bit_xor a b)) b
      (λ i. omega (arith, nth_bit-bit_xor i a (bit_xor a b), nth_bit-bit_xor i a b, nth_bit-lt i b))

pub bit_xor-zero : (a : ℕ) → bit_xor a 0 ≡ a
bit_xor-zero a = bit_xor_comm a 0 ∙ zero-bit_xor a

pub bit_xor_self : (a : ℕ) → bit_xor a a ≡ 0
bit_xor_self a = ap (bit_xor a) (sym (bit_xor-zero a)) ∙ bit_xor_cancel a 0
