-- ===== src/Dptunnel/Replay/Tests.antt =====
-- The window on concrete counters.
use sase.Prelude.{◌≡◌, refl, true, false, [], ◌∷◌}
use sase.Dptunnel.Replay.{ReplayWindow, empty_window, accept, mark}
use sase.Dptunnel.Replay.Window.{is_fresh, accept-eq-is_fresh, Remembers, Remembers-empty_window}
use sase.Dptunnel.Replay.History.{run, NoRepeat, no_replay, accept-Remembers}

abbrev after_five : ReplayWindow
after_five = (accept empty_window 5).0

after_five-Remembers : Remembers after_five (5 ∷ [])
unfolding accept empty_window
after_five-Remembers = accept-Remembers empty_window [] Remembers-empty_window 5

accept_replayed : (accept after_five 5).1 ≡ false
unfolding accept empty_window
accept_replayed = refl

accept_late : (accept after_five 3).1 ≡ true
unfolding accept empty_window mark
accept_late = refl

accept-eq-is_fresh_example : (accept after_five 3).1 ≡ is_fresh after_five (5 ∷ []) 3
accept-eq-is_fresh_example = accept-eq-is_fresh after_five (5 ∷ []) after_five-Remembers 3

no_replay_example : NoRepeat (run (empty_window, []) (5 ∷ 3 ∷ 5 ∷ 90 ∷ 3 ∷ [])).1
no_replay_example = no_replay (5 ∷ 3 ∷ 5 ∷ 90 ∷ 3 ∷ [])
