-- ===== src/Dptunnel/Lpm/Tests.antt =====
-- Routes of three sites, two of them nested.
use sase.Prelude.{ℕ, ◌≡◌, refl, List, [], ◌∷◌, arith, All}
use sase.Dptunnel.Lpm.{new_trie, longest_prefix}
use sase.Prelude.Bytes.{AreBytes}
use sase.Dptunnel.Lpm.Reference.{Entry, insert_all, scan, FitsFamily, longest_prefix-eq-scan}

abbrev entries : List (Entry ℕ)
entries =
    record { ip = 10 ∷ 0 ∷ 0 ∷ 0 ∷ []; ones = 8; value = 1 }
    ∷ record { ip = 10 ∷ 1 ∷ 0 ∷ 0 ∷ []; ones = 16; value = 2 }
    ∷ record { ip = 192 ∷ 168 ∷ 7 ∷ 0 ∷ []; ones = 24; value = 3 }
    ∷ []

entries-FitsFamily : All (FitsFamily 32) entries
entries-FitsFamily = (
  (refl, omega arith, (omega arith, (omega arith, (omega arith, (omega arith, tt))))),
  (
    (refl, omega arith, (omega arith, (omega arith, (omega arith, (omega arith, tt))))),
    ((refl, omega arith, (omega arith, (omega arith, (omega arith, (omega arith, tt))))), tt),
  ),
)

address-AreBytes : AreBytes (10 ∷ 1 ∷ 2 ∷ 3 ∷ [])
address-AreBytes = (omega arith, (omega arith, (omega arith, (omega arith, tt))))

longest_prefix-eq-scan_example :
    longest_prefix (insert_all (new_trie 32) entries) (10 ∷ 1 ∷ 2 ∷ 3 ∷ [])
    ≡ scan (10 ∷ 1 ∷ 2 ∷ 3 ∷ []) entries
longest_prefix-eq-scan_example =
    longest_prefix-eq-scan 32 entries (10 ∷ 1 ∷ 2 ∷ 3 ∷ []) refl address-AreBytes entries-FitsFamily
