-- ===== src/Linkmon/Tests.antt =====
-- Two uplinks on concrete probes; the ratios of the loss are fractions of natural numbers.
use sase.Prelude.{
  ℕ, ◌*◌, ◌+◌, ◌/◌, ◌≡◌, arith, min, Bool, true, false, List, [], ◌∷◌, leb, ltb, take,
}
use sase.Prelude.Bytes.{bytes}
use sase.Prelude.Int.{pos, lt_int}
use sase.Linkmon.{Floats, Link, Config, new_monitor, new_health, count_fails, best}
use sase.Linkmon.Window.{mark_all, last_of, mark_all-last_of}
use sase.Linkmon.Choice.{run_rounds, IsBest, run_rounds-IsBest}

abbrev test_floats : Floats (ℕ × ℕ)
test_floats = record {
  one = (1, 1);
  half = (1, 2);
  default_alpha = (3, 10);
  is_positive = λ a. ltb 0 a.0;
  le = λ a b. leb (a.0 * b.1) (b.0 * a.1);
  ratio = λ n d. (n, d);
  blend = λ a r o. (a.0 * r + o) / 2;
}

abbrev test_links : List Link
test_links =
    record { name = bytes "lte"; addr = bytes "b:1"; priority = pos 1 }
    ∷ record { name = bytes "fiber"; addr = bytes "a:1"; priority = pos 0 }
    ∷ []

abbrev test_config : Config (ℕ × ℕ)
test_config = record {
  interval = 0;
  window = 0;
  loss_threshold = (0, 1);
  timeout = 0;
  alpha = (0, 1);
}

mark_all-last_of_example :
    ((mark_all (true ∷ false ∷ false ∷ true ∷ []) (new_health 3)).filled ≡ min 4 3)
    × (count_fails (
          take
            (mark_all (true ∷ false ∷ false ∷ true ∷ []) (new_health 3)).filled
            (mark_all (true ∷ false ∷ false ∷ true ∷ []) (new_health 3)).window)
        ≡ count_fails (last_of 3 (true ∷ false ∷ false ∷ true ∷ [])))
mark_all-last_of_example = mark_all-last_of 3 (true ∷ false ∷ false ∷ true ∷ []) (omega arith)

abbrev test_rounds : List (Link → Bool × ℕ × ℕ)
test_rounds = (λ l. (lt_int (pos 0) l.priority, 20, 100)) ∷ []

run_rounds-IsBest_example :
    IsBest test_floats
      (run_rounds test_floats test_rounds (new_monitor test_floats test_links test_config))
      test_links
      (best test_floats
        (run_rounds test_floats test_rounds (new_monitor test_floats test_links test_config)))
run_rounds-IsBest_example = run_rounds-IsBest test_floats test_rounds test_links test_config
