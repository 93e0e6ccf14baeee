-- ===== src/Dptunnel/Replay/Window.antt =====
-- The window refines the set of the counters that it accepted.
use sase.Prelude.{
  ℕ, zero, suc, ◌+◌, ◌-◌, ◌%◌, ◌^◌, ◌≤◌, ◌<◌, ◌≡◌, sym, ap, refl, inl, inr, Bool, true, false, not,
  ◌&&◌, ◌||◌, ◌∙◌, List, [], ◌∷◌, arith, ◌==◌, ltb, if◌then◌else◌, Bool-cases,
}
use Prim.Native.Nat.{bit_and}
use native.Mathlib.Nat.{mod-eq_of_lt, one-le-pow, pow-suc}
use sase.Prelude.Bits.{nth_bit, nth_bit-lt, bit_and_pow, nth_bit-mod, nth_bit-pow}
use sase.Dptunnel.Replay.{ReplayWindow, empty_window, accept, mark}

-- The counter was accepted before: it stands in the history.
unfoldable pub was_accepted : ℕ → List ℕ → Bool
was_accepted c [] = false
was_accepted c (x ∷ xs) = x == c || was_accepted c xs

abbrev pub is_nil : List ℕ → Bool
is_nil [] = true
is_nil (x ∷ xs) = false

-- The window after a run of accepted counters, the last first: it knows the greatest of them, and
-- for each of the 64 counters up to it whether it was accepted.
pub record Remembers (w : ReplayWindow) (history : List ℕ) : Type 0 where
  pub seen : w.seen ≡ not (is_nil history)
  pub last_accepted : w.seen ≡ true → was_accepted w.last history ≡ true
  pub greatest : (c : ℕ) → w.last < c → was_accepted c history ≡ false
  pub recorded :
      (i : ℕ)
      → w.seen ≡ true
      → i < 64
      → i ≤ w.last
      → (nth_bit i w.bitmap == 1) ≡ was_accepted (w.last - i) history

pub Remembers-empty_window : Remembers empty_window []
unfolding empty_window was_accepted
Remembers-empty_window = record {
  seen = refl;
  last_accepted = λ e. cc e;
  greatest = λ c h. refl;
  recorded = λ i e h k. cc e;
}

-- A counter is fresh: not accepted before, and not 64 or more behind the greatest accepted.
unfoldable pub is_fresh : ReplayWindow → List ℕ → ℕ → Bool
is_fresh w history c = not (was_accepted c history) && (not w.seen || ltb w.last (c + 64))

pow_lt : (d w : ℕ) → d < w → 2 ^ d < 2 ^ w
pow_lt d zero h = absurd (omega arith)
pow_lt zero (suc w) h = omega (arith, pow-suc 2 w, one-le-pow w 2)
pow_lt (suc d) (suc w) h = omega (arith, pow-suc 2 w, pow-suc 2 d, pow_lt d w (omega arith))

pub mask_bit : (i d : ℕ) → i < 64 → nth_bit i (2 ^ d % 2 ^ 64) ≡ (if i == d then 1 else 0)
mask_bit i d h = nth_bit-mod i 64 (2 ^ d) h ∙ nth_bit-pow i d

mask_small : (d : ℕ) → d < 64 → 2 ^ d % 2 ^ 64 ≡ 2 ^ d
mask_small d h = mod-eq_of_lt (pow_lt d 64 h)

-- The test of the bitmap reads the counter's bit.
test_bit : (b d : ℕ) → d < 64 → (bit_and b (2 ^ d % 2 ^ 64) == 0) ≡ not (nth_bit d b == 1)
test_bit b d h =
    rw (mask_small d h, bit_and_pow d b) (ground (arith, nth_bit-lt d b, one-le-pow d 2))

module _ (w : ReplayWindow) (history : List ℕ) (r : Remembers w history) (c : ℕ) where
  -- Below the greatest, the bit of the counter says whether it was accepted.
  bit_below :
      w.seen ≡ true
      → c ≤ w.last
      → w.last - c < 64
      → (nth_bit (w.last - c) w.bitmap == 1) ≡ was_accepted c history
  bit_below e h k =
      r.recorded (w.last - c) e k (omega arith) ∙ ap (λ d. was_accepted d history) (omega arith)

  mark-eq :
      w.seen ≡ true
      → c ≤ w.last
      → (mark w c).1 ≡ (ltb (w.last - c) 64 && not (was_accepted c history))
  unfolding mark
  mark-eq e h = ground (arith, test_bit w.bitmap (w.last - c), bit_below e h)

  no_history : w.seen ≡ false → was_accepted c history ≡ false
  unfolding was_accepted
  no_history e = nil_history history (sym e ∙ r.seen)
    where
      nil_history : (l : List ℕ) → false ≡ not (is_nil l) → was_accepted c l ≡ false
      nil_history [] q = refl
      nil_history (x ∷ l) q = ground arith

  -- A counter is accepted exactly when it is fresh: it was not accepted before, and it is less than
  -- 64 behind the greatest counter accepted.
  pub accept-eq-is_fresh : (accept w c).1 ≡ is_fresh w history c
  unfolding is_fresh
  accept-eq-is_fresh = elim (Bool-cases w.seen) [
    | inr new ↦ unfold accept in ground (arith, no_history new)
    | inl old ↦ elim (Bool-cases (ltb w.last c)) [
      | inl above ↦ unfold accept in ground (arith, r.greatest c)
      | inr below ↦ accept_below old below ∙ ground (arith, r.last_accepted old, mark-eq old)
    ]
  ]
    where
      accept_below :
          w.seen ≡ true
          → ltb w.last c ≡ false
          → (accept w c).1 ≡ (if c == w.last then false else (mark w c).1)
      accept_below e f = unfold accept in ground arith
