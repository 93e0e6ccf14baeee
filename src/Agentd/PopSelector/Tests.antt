-- ===== src/Agentd/PopSelector/Tests.antt =====
-- Three candidates, one of which does not answer.
use sase.Prelude.{◌≡◌, refl, [], ◌∷◌, Option, none, some, if◌then◌else◌}
use sase.Prelude.Bytes.{Bytes, bytes, beq}
use sase.Prelude.Int.{ℤ, pos}
use sase.Prelude.Sort.{stable_sort, insert}
use sase.Prelude.Result.{ok}
use sase.Agentd.PopSelector
use sase.Agentd.PopSelector.{PopCandidate, PopSelector, select}

abbrev candidate : Bytes → PopCandidate
candidate name = record { name = name; handshake_addr = bytes "pop:443" }

abbrev measured : PopCandidate → Option ℤ
measured c =
    if beq c.name (bytes "fra")
    then some (pos 30)
    else if beq c.name (bytes "ams")
    then some (pos 20)
    else none

abbrev three : PopSelector
three = record {
  candidates = candidate (bytes "fra") ∷ candidate (bytes "ams") ∷ candidate (bytes "sin") ∷ [];
  current = [];
}

abbrev chosen : PopSelector
chosen = record three { current = bytes "ams" }

ams_selected : select measured three ≡ (chosen, ok (candidate (bytes "ams")))
unfolding select PopSelector.healthy stable_sort insert PopSelector.rtt_less beq
ams_selected = refl
