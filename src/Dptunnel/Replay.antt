-- ===== src/Dptunnel/Replay.antt =====
-- internal/dptunnel/replay.go: the sliding window against replayed counters. Counters and the bitmap
-- are uint64: the bitmap's shift is cut to 64 bits, and no other operation leaves the range.
pub mod Window
pub mod History
mod Tests
use Prim.Native.Nat.{bit_and, bit_or}
use sase.Prelude.{ℕ, ◌-◌, ◌*◌, ◌%◌, ◌^◌, Bool, true, false, not, ◌==◌, ltb, leb, if◌then◌else◌}

abbrev pub replay_window_size : ℕ
replay_window_size = 64

pub record ReplayWindow : Type 0 where
  pub last : ℕ
  pub bitmap : ℕ
  pub seen : Bool

-- The zero value, with which a session starts.
unfoldable pub empty_window : ReplayWindow
empty_window = record { last = 0; bitmap = 0; seen = false }

-- A counter above the greatest: the window moves up to it.
unfoldable pub advance : ReplayWindow → ℕ → ReplayWindow
advance w counter =
    let shift = counter - w.last in
    record w {
      last = counter;
      bitmap = if leb replay_window_size shift then 1 else bit_or (w.bitmap * 2 ^ shift % 2 ^ 64) 1;
    }

-- A counter below the greatest: too old, already marked, or marked now.
unfoldable pub mark : ReplayWindow → ℕ → ReplayWindow × Bool
mark w counter =
    let diff = w.last - counter in
    let mask = 2 ^ diff % 2 ^ 64 in
    if leb replay_window_size diff
    then (w, false)
    else if not (bit_and w.bitmap mask == 0)
    then (w, false)
    else (record w { bitmap = bit_or w.bitmap mask }, true)

unfoldable pub accept : ReplayWindow → ℕ → ReplayWindow × Bool
unfolding advance mark
accept w counter =
    if not w.seen
    then (record { last = counter; bitmap = 1; seen = true }, true)
    else if ltb w.last counter
    then (advance w counter, true)
    else if counter == w.last
    then (w, false)
    else mark w counter
