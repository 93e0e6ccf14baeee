-- ===== src/Agentd/PopSelector/Best.antt =====
-- The choice is a best one: reachable, and no reachable candidate comes before it.
use mathlib.Core.Path.{subst}
use mathlib.Core.Option.{some-injective}
use sase.Prelude.{
  ◌≡◌, ◌⊎◌, refl, sym, ◌∙◌, ap, false, Bool-cases, inl, inr, List, [], ◌∷◌, Option, none, some,
  is_empty, All, Any,
}
use sase.Prelude.Bytes.{blt}
use sase.Prelude.Int.{ℤ}
use sase.Prelude.Sort.{
  IsWeakOrder, IsSorted, stable_sort, stable_sort-IsSorted, All_of_stable_sort, Any_of_stable_sort,
}
use sase.Prelude.Lex.{lt_int-IsTotalOrder, blt-IsTotalOrder, by-IsWeakOrder, lex-IsWeakOrder}
use sase.Prelude.Result.{ok, err, ok-not-err, ok-injective}
use sase.Agentd.PopSelector.{
  PopCandidate, PopSelector, RttResult, rtt_less, keep_ok, healthy, select, first_of, no_candidates,
  no_healthy,
}

rtt_less-IsWeakOrder : IsWeakOrder rtt_less
unfolding rtt_less
rtt_less-IsWeakOrder =
    lex-IsWeakOrder lt_int-IsTotalOrder (λ r. r.rtt) (λ x y. blt x.cand.name y.cand.name)
      (by-IsWeakOrder blt-IsTotalOrder (λ r. r.cand.name))

no_none : (other : ℤ) → ¬ (none ≡ some other)
no_none other e = cc

least : (r : RttResult) → rtt_less r r ≡ false
least r = elim (Bool-cases (rtt_less r r)) [ inl e ↦ rtt_less-IsWeakOrder.asym r r e | inr e ↦ e ]

module _ (probe_rtt : PopCandidate → Option ℤ) where
  -- A candidate chosen: it answered, and every candidate that answered is not before it, by the
  -- round trip and then by the name.
  record IsBest (cands : List PopCandidate) (c : PopCandidate) : Type 0 where
    rtt : ℤ
    offered : Any (λ x. x ≡ c) cands
    reached : probe_rtt c ≡ some rtt
    best :
        All
          (λ x.
            (other : ℤ)
            → probe_rtt x ≡ some other
            → rtt_less (record { cand = x; rtt = other }) (record { cand = c; rtt = rtt }) ≡ false)
          cands

  All_of_keep_ok :
      (P : RttResult → Type 0) (c : PopCandidate) (o : Option ℤ) (rs : List RttResult)
      → All P (keep_ok c o rs)
      → ((other : ℤ) → o ≡ some other → P (record { cand = c; rtt = other })) × All P rs
  All_of_keep_ok P c none rs h = (λ other e. absurd (no_none other e), h)
  All_of_keep_ok P c (some rtt) rs h = (
    λ other e. subst (λ x. P (record { cand = c; rtt = x })) (some-injective rtt other e) h.0,
    h.1,
  )

  All_of_healthy :
      (P : RttResult → Type 0) (cs : List PopCandidate)
      → All P (healthy probe_rtt cs)
      → All (λ x. (other : ℤ) → probe_rtt x ≡ some other → P (record { cand = x; rtt = other })) cs
  unfolding healthy
  All_of_healthy P [] h = tt
  All_of_healthy P (c ∷ cs) h =
      let (p, q) = All_of_keep_ok P c (probe_rtt c) (healthy probe_rtt cs) h in
      (p, All_of_healthy P cs q)

  Any_of_keep_ok :
      (r : RttResult) (c : PopCandidate) (o : Option ℤ) (rs : List RttResult)
      → Any (λ x. x ≡ r) (keep_ok c o rs)
      → ((o ≡ some r.rtt) × (c ≡ r.cand)) ⊎ Any (λ x. x ≡ r) rs
  Any_of_keep_ok r c none rs h = inr h
  Any_of_keep_ok r c (some rtt) rs (inl e) = inl (ap (λ x. some x.rtt) e, ap (λ x. x.cand) e)
  Any_of_keep_ok r c (some rtt) rs (inr h) = inr h

  Any_of_healthy :
      (cs : List PopCandidate) (r : RttResult)
      → Any (λ x. x ≡ r) (healthy probe_rtt cs)
      → (probe_rtt r.cand ≡ some r.rtt) × Any (λ x. x ≡ r.cand) cs
  unfolding healthy
  Any_of_healthy [] r h = absurd h
  Any_of_healthy (c ∷ cs) r h = elim (Any_of_keep_ok r c (probe_rtt c) (healthy probe_rtt cs) h) [
    | inl (e, same) ↦ (ap probe_rtt (sym same) ∙ e, inl same)
    | inr later ↦ let (e, p) = Any_of_healthy cs r later in (e, inr p)
  ]

  chosen :
      (s s' : PopSelector) (rs : List RttResult) (c : PopCandidate)
      → first_of s rs ≡ (s', ok c)
      → IsSorted rtt_less rs
      → (r : RttResult) × (r.cand ≡ c)
        × (s'.current ≡ c.name)
        × Any (λ x. x ≡ r) rs
        × All (λ x. rtt_less x r ≡ false) rs
  chosen s s' [] c e h = absurd (ok-not-err (err no_healthy) no_healthy (ap (λ p. p.1) e) refl)
  chosen s s' (r ∷ rs) c e h =
      let same = ok-injective r.cand c (first_of s (r ∷ rs)).1 refl (ap (λ p. p.1) e) in
      (r, same, sym (ap (λ p. p.0.current) e) ∙ ap (λ x. x.name) same, inl refl, (least r, h.0))

  healthy_candidates :
      (s : PopSelector) (s' : PopSelector) (c : PopCandidate)
      → select probe_rtt s ≡ (s', ok c)
      → first_of s (stable_sort rtt_less (healthy probe_rtt s.candidates)) ≡ (s', ok c)
  unfolding select
  healthy_candidates s s' c e = elim (Bool-cases (is_empty s.candidates)) [
    | inl b ↦
        let k : (s, err no_candidates) ≡ (s', ok c) = rw b at e in
        absurd (ok-not-err (err no_candidates) no_candidates (ap (λ p. p.1) k) refl)
    | inr b ↦ rw b at e
  ]

  -- A successful choice is a best candidate, and it is remembered as the current one.
  select-IsBest :
      (s s' : PopSelector) (c : PopCandidate)
      → select probe_rtt s ≡ (s', ok c)
      → IsBest s.candidates c × (s'.current ≡ c.name)
  select-IsBest s s' c e =
      let rs = healthy probe_rtt s.candidates in
      let (r, same, current, present, least) =
        chosen s s' (stable_sort rtt_less rs) c (healthy_candidates s s' c e)
          (stable_sort-IsSorted rtt_less rtt_less-IsWeakOrder rs) in
      let (reached, offered) =
        Any_of_healthy s.candidates r (Any_of_stable_sort rtt_less (λ x. x ≡ r) rs present) in
      let best =
        All_of_healthy (λ x. rtt_less x r ≡ false) s.candidates
          (All_of_stable_sort rtt_less (λ x. rtt_less x r ≡ false) rs least) in
      (
        subst (IsBest s.candidates) same
            (record { rtt = r.rtt; offered = offered; reached = reached; best = best }),
        current,
      )
