-- ===== src/Agentd/PopSelector.antt =====
-- internal/agentd/popselect.go: the choice of a point of presence by measured round trips. The
-- probe, with its timeouts, is a parameter; the concurrent probes of one Select give one list of
-- results in the candidates' order, however they interleave.
mod Best
mod Tests
use sase.Prelude.{
  Bool, true, false, not, ◌&&◌, ◌||◌, List, [], ◌∷◌, Option, none, some, if◌then◌else◌, is_empty,
}
use sase.Prelude.Bytes.{Bytes, beq, blt}
use sase.Prelude.Dict.{Dict, get, put, bytes_key}
use sase.Prelude.Int.{ℤ, eq_int, lt_int}
use sase.Prelude.Sort.{stable_sort}
use sase.Prelude.Result.{Result, ok, err}

pub record PopCandidate : Type 0 where
  pub name : Bytes
  pub handshake_addr : Bytes

pub record PopSelector : Type 0 where
  pub candidates : List PopCandidate
  pub current : Bytes

pub data SelectError : Type 0 where
  no_candidates no_healthy : SelectError

unfoldable pub new_pop_selector : PopSelector
new_pop_selector = record { candidates = []; current = [] }

abbrev is_seen : Bytes → Dict Bytes Bool → Bool
is_seen k seen = elim (get k seen) [ none ↦ false | some b ↦ b ]

-- The loop of SetCandidates.
unfoldable pub usable : Dict Bytes Bool → List PopCandidate → List PopCandidate
usable seen [] = []
usable seen (c ∷ cs) =
    let skipped = usable seen cs in
    let kept = c ∷ usable (put c.name true seen) cs in
    if is_empty c.name || is_empty c.handshake_addr || is_seen c.name seen then skipped else kept

unfoldable pub set_candidates : PopSelector → List PopCandidate → PopSelector
set_candidates s cs = record s { candidates = usable [] cs }

-- A candidate that answered, and its round trip.
pub record RttResult : Type 0 where
  pub cand : PopCandidate
  pub rtt : ℤ

unfoldable pub rtt_less : RttResult → RttResult → Bool
rtt_less a b = if not (eq_int a.rtt b.rtt) then lt_int a.rtt b.rtt else blt a.cand.name b.cand.name

-- A probe without an error is kept.
abbrev pub keep_ok : PopCandidate → Option ℤ → List RttResult → List RttResult
keep_ok c none rest = rest
keep_ok c (some rtt) rest = record { cand = c; rtt = rtt } ∷ rest

abbrev pub first_of : PopSelector → List RttResult → PopSelector × Result SelectError PopCandidate
first_of s [] = (s, err no_healthy)
first_of s (best ∷ rest) = (record s { current = best.cand.name }, ok best.cand)

module _ (probe_rtt : PopCandidate → Option ℤ) where
  unfoldable pub healthy : List PopCandidate → List RttResult
  healthy [] = []
  healthy (c ∷ cs) = keep_ok c (probe_rtt c) (healthy cs)

  unfoldable pub select : PopSelector → PopSelector × Result SelectError PopCandidate
  select s =
      if is_empty s.candidates
      then (s, err no_candidates)
      else first_of s (stable_sort rtt_less (healthy s.candidates))
