-- ===== src/Dptunnel/Replay/History.antt =====
-- Every step of the window keeps its record of the accepted counters, so none is accepted twice.
use sase.Prelude.{
  ℕ, ◌-◌, ◌*◌, ◌%◌, ◌^◌, ◌≤◌, ◌<◌, ◌≡◌, sym, ap, refl, ◌⊎◌, inl, inr, Bool, true, false, not, ◌∙◌,
  List, [], ◌∷◌, arith, ◌==◌, ltb, if◌then◌else◌, Bool-cases,
}
use Prim.Native.Nat.{bit_or}
use sase.Prelude.Bits.{nth_bit, nth_bit-lt, nth_bit-bit_or, nth_bit-shift, nth_bit-mod, nth_bit-one}
use sase.Dptunnel.Replay.{ReplayWindow, empty_window, accept, advance, mark}
use sase.Dptunnel.Replay.Window.{
  was_accepted, is_nil, Remembers, Remembers-empty_window, is_fresh, mask_bit, accept-eq-is_fresh,
}

module _ (w : ReplayWindow) (history : List ℕ) (r : Remembers w history) (c : ℕ) where
  first-Remembers :
      w.seen ≡ false → Remembers (record { last = c; bitmap = 1; seen = true }) (c ∷ history)
  unfolding was_accepted
  first-Remembers e = record {
    seen = refl;
    last_accepted = λ _. ground arith;
    greatest = λ d h. ground (arith, r.seen, no_history_at d);
    recorded = λ i _ h k. ground (arith, nth_bit-one i, no_history_at (c - i));
  }
    where
      no_history_at : (d : ℕ) → was_accepted d history ≡ false
      no_history_at d = nil_at history (sym e ∙ r.seen)
        where
          nil_at : (l : List ℕ) → false ≡ not (is_nil l) → was_accepted d l ≡ false
          nil_at [] q = refl
          nil_at (x ∷ l) q = ground arith

  shifted_bit :
      (i : ℕ)
      → i < 64
      → nth_bit i (bit_or (w.bitmap * 2 ^ (c - w.last) % 2 ^ 64) 1) ≡ (
          if i == 0
          then 1
          else if ltb i (c - w.last)
          then 0
          else nth_bit (i - (c - w.last)) w.bitmap)
  shifted_bit i h = ground (
    arith,
    nth_bit-bit_or i (w.bitmap * 2 ^ (c - w.last) % 2 ^ 64) 1,
    nth_bit-mod i 64 (w.bitmap * 2 ^ (c - w.last)) h,
    nth_bit-shift i (c - w.last) w.bitmap,
    nth_bit-one i,
    nth_bit-lt i (w.bitmap * 2 ^ (c - w.last) % 2 ^ 64),
  )

  advance_recorded :
      w.seen ≡ true
      → w.last < c
      → (i : ℕ) → i < 64
      → i ≤ c
      → (nth_bit i (advance w c).bitmap == 1) ≡ was_accepted (c - i) (c ∷ history)
  unfolding advance was_accepted
  advance_recorded e above i h k = elim (Bool-cases (ltb i (c - w.last))) [
    | inl short ↦ ground (arith, nth_bit-one i, shifted_bit i h, r.greatest (c - i))
    | inr long ↦
        let reach : c - w.last ≤ i = ground arith in
        let same : w.last - (i - (c - w.last)) ≡ c - i = omega arith in
        ground (
          arith,
          shifted_bit i h,
          r.recorded (i - (c - w.last)) e (omega arith) (omega arith),
          ap (λ d. was_accepted d history) same,
        )
  ]

  advance-Remembers : w.seen ≡ true → w.last < c → Remembers (advance w c) (c ∷ history)
  unfolding advance
  advance-Remembers e above = record {
    seen = e;
    last_accepted = λ _. unfold was_accepted in ground arith;
    greatest = λ d h. unfold was_accepted in ground (arith, r.greatest d);
    recorded = λ i _ h k. advance_recorded e above i h k;
  }

  marked_bit :
      (i d : ℕ)
      → i < 64
      → nth_bit i (bit_or w.bitmap (2 ^ d % 2 ^ 64)) ≡ (if i == d then 1 else nth_bit i w.bitmap)
  marked_bit i d h =
      ground
        (arith, nth_bit-bit_or i w.bitmap (2 ^ d % 2 ^ 64), mask_bit i d h, nth_bit-lt i w.bitmap)

  mark_bitmap :
      (mark w c).1 ≡ true
      → (w.last - c < 64)
        × ((mark w c).0 ≡ record w { bitmap = bit_or w.bitmap (2 ^ (w.last - c) % 2 ^ 64) })
  unfolding mark
  mark_bitmap ok = (ground arith, ground arith)

  mark-Remembers :
      w.seen ≡ true → c < w.last → (mark w c).1 ≡ true → Remembers (mark w c).0 (c ∷ history)
  unfolding was_accepted
  mark-Remembers e below ok = rw (mark_bitmap ok).1 (record {
    seen = e;
    last_accepted = λ _. ground (arith, r.last_accepted e);
    greatest = λ d h. ground (arith, r.greatest d);
    recorded = λ i _ h k. ground (arith, marked_bit i (w.last - c) h, r.recorded i e h k);
  })

  abbrev Kept : ReplayWindow × Bool → Type 0
  Kept (w', ok) = Remembers w' (if ok then c ∷ history else history)

  mark-Kept : w.seen ≡ true → c < w.last → Kept (mark w c)
  mark-Kept e below = elim (Bool-cases (mark w c).1) [
    | inl ok ↦ rw ok (mark-Remembers e below ok)
    | inr refused ↦ rw (refused, mark_refused refused) r
  ]
    where
      mark_refused : (mark w c).1 ≡ false → (mark w c).0 ≡ w
      mark_refused e = unfold mark in ground arith

  accept_branch :
      ((w.seen ≡ false) × (accept w c ≡ (record { last = c; bitmap = 1; seen = true }, true)))
      ⊎ (((w.seen ≡ true) × (w.last < c) × (accept w c ≡ (advance w c, true)))
          ⊎ ((accept w c ≡ (w, false))
              ⊎ ((w.seen ≡ true) × (c < w.last) × (accept w c ≡ mark w c))))
  unfolding accept
  accept_branch = ground arith

  -- The window goes on remembering, with the counter added exactly when it was accepted.
  pub accept-Remembers : Remembers (accept w c).0 (if (accept w c).1 then c ∷ history else history)
  accept-Remembers = go accept_branch
    where
      go :
          ((w.seen ≡ false) × (accept w c ≡ (record { last = c; bitmap = 1; seen = true }, true)))
            ⊎ (((w.seen ≡ true) × (w.last < c) × (accept w c ≡ (advance w c, true)))
                ⊎ ((accept w c ≡ (w, false))
                    ⊎ ((w.seen ≡ true) × (c < w.last) × (accept w c ≡ mark w c))))
          → Kept (accept w c)
      go (inl (new, e)) = rw e (first-Remembers new)
      go (inr (inl (old, above, e))) = rw e (advance-Remembers old above)
      go (inr (inr (inl e))) = rw e r
      go (inr (inr (inr (old, below, e)))) = rw e (mark-Kept old below)

-- A run of counters, from a window and the history it remembers.
pub run : ReplayWindow × List ℕ → List ℕ → ReplayWindow × List ℕ
run (w, history) [] = (w, history)
run (w, history) (c ∷ cs) =
    let (w', ok) = accept w c in run (w', if ok then c ∷ history else history) cs

abbrev pub NoRepeat : List ℕ → Type 0
NoRepeat [] = Unit {0}
NoRepeat (c ∷ cs) = (was_accepted c cs ≡ false) × NoRepeat cs

run-NoRepeat :
    (w : ReplayWindow) (history cs : List ℕ)
    → Remembers w history
    → NoRepeat history
    → NoRepeat (run (w, history) cs).1
unfolding run
run-NoRepeat w history [] r h = h
run-NoRepeat w history (c ∷ cs) r h =
    run-NoRepeat (accept w c).0 (if (accept w c).1 then c ∷ history else history) cs
      (accept-Remembers w history r c) (added (accept w c).1 (accept-eq-is_fresh w history r c))
  where
    added : (b : Bool) → b ≡ is_fresh w history c → NoRepeat (if b then c ∷ history else history)
    added true e = (unfold is_fresh in ground arith, h)
    added false e = h

-- Whatever the counters and their order, no counter is accepted twice.
pub no_replay : (cs : List ℕ) → NoRepeat (run (empty_window, []) cs).1
no_replay cs = run-NoRepeat empty_window [] cs Remembers-empty_window tt
