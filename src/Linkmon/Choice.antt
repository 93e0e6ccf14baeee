-- ===== src/Linkmon/Choice.antt =====
-- Which link is taken: the healthy one of the best priority.
use sase.Prelude.{
  ℕ, ◌≡◌, refl, ap, Bool, true, false, Bool-cases, inl, inr, List, [], ◌∷◌, Option, none, some, All,
  Any, All-imp,
}
use mathlib.Core.Option.{some-injective}
use sase.Prelude.Bytes.{Bytes}
use sase.Prelude.Int.{ℤ, lt_int, lt_int_irrefl}
use sase.Prelude.Dict.{get, bytes_key}
use sase.Prelude.Sort.{
  stable_sort, stable_sort-IsSorted, IsSorted, IsWeakOrder, All_of_stable_sort, Any_of_stable_sort,
}
use sase.Prelude.Lex.{lt_int-IsTotalOrder, by-IsWeakOrder}
use sase.Linkmon.{
  Floats, Link, Health, Config, Monitor, by_priority, new_monitor, record_probe, record_found,
  probe_all, is_up, best_of, best, link_is_up,
}

module _ {F : Type 0} (floats : Floats F) where
  -- The links of a monitor are in the order of their priorities.
  abbrev pub Ordered : Monitor F → Type 0
  Ordered m = IsSorted by_priority m.links

  record_found-links :
      (name : Bytes) (now : ℕ) (ok : Bool) (rtt : ℕ) (o : Option Health) (m : Monitor F)
      → (record_found floats name now ok rtt o m).links ≡ m.links
  unfolding record_found
  record_found-links name now ok rtt none m = refl
  record_found-links name now ok rtt (some h) m = refl

  probe_all-links :
      (probe : Link → Bool × ℕ × ℕ) (links : List Link) (m : Monitor F)
      → (probe_all floats probe links m).links ≡ m.links
  unfolding probe_all record_probe
  probe_all-links probe [] m = refl
  probe_all-links probe (l ∷ links) m =
      let (ok, rtt, now) = probe l in
      rw (probe_all-links probe links (record_probe floats l.name now ok rtt m))
        (record_found-links l.name now ok rtt (get l.name m.healths) m)

  -- The link is among these, and every link that comes before it in priority is down.
  pub record IsFirstUp (m : Monitor F) (links : List Link) (l : Link) : Type 0 where
    pub listed : Any (λ x. x ≡ l) links
    pub up : link_is_up floats l.name m ≡ true
    pub better_down :
        All (λ x. lt_int x.priority l.priority ≡ true → link_is_up floats x.name m ≡ false) links

  own : (p q : ℤ) → p ≡ q → lt_int p q ≡ true → ⊥
  own p q e k = let i = lt_int_irrefl q in let k' : lt_int q q ≡ true = rw e at k in cc

  later : (y x l : Link) → x ≡ l → by_priority y x ≡ false → lt_int y.priority l.priority ≡ true → ⊥
  unfolding by_priority
  later y x l e n k = let n' : lt_int y.priority l.priority ≡ false = rw (← e) n in cc

  best_of-first :
      (links : List Link) (m : Monitor F) (l : Link)
      → IsSorted by_priority links
      → best_of floats links m ≡ some l
      → IsFirstUp m links l
  unfolding best_of link_is_up by_priority
  best_of-first [] m l s e = absurd (cc)
  best_of-first (x ∷ links) m l s e =
      elim (Bool-cases (is_up floats m.cfg.loss_threshold (get x.name m.healths))) [
        | inl b ↦
            let this : x ≡ l = some-injective x l (rw b at e) in
            record {
              listed = inl this;
              up = rw (← this) b;
              better_down = (
                λ k. absurd (own x.priority l.priority (ap (λ y. y.priority) this) k),
                All-imp (λ y. by_priority y x ≡ false)
                    (λ y. lt_int y.priority l.priority ≡ true → link_is_up floats y.name m ≡ false)
                    (λ y n k. absurd (later y x l this n k)) links s.0,
              );
            }
        | inr b ↦
            let rest = best_of-first links m l s.1 (rw b at e) in
            record {
              listed = inr rest.listed;
              up = rest.up;
              better_down = (λ k. b, rest.better_down);
            }
      ]

  best_of-none :
      (links : List Link) (m : Monitor F)
      → best_of floats links m ≡ none
      → All (λ x. link_is_up floats x.name m ≡ false) links
  unfolding best_of link_is_up
  best_of-none [] m e = tt
  best_of-none (x ∷ links) m e =
      elim (Bool-cases (is_up floats m.cfg.loss_threshold (get x.name m.healths))) [
        | inl b ↦ let e' : some x ≡ none = rw b at e in absurd (cc)
        | inr b ↦ (b, best_of-none links m (rw b at e))
      ]

  -- Rounds of probes on a monitor.
  unfoldable pub run_rounds : List (Link → Bool × ℕ × ℕ) → Monitor F → Monitor F
  run_rounds [] m = m
  run_rounds (probe ∷ rounds) m = run_rounds rounds (probe_all floats probe m.links m)

  run_rounds-links :
      (rounds : List (Link → Bool × ℕ × ℕ)) (m : Monitor F) → (run_rounds rounds m).links ≡ m.links
  unfolding run_rounds
  run_rounds-links [] m = refl
  run_rounds-links (probe ∷ rounds) m =
      rw (run_rounds-links rounds (probe_all floats probe m.links m))
        (probe_all-links probe m.links m)

  by_priority-IsWeakOrder : IsWeakOrder by_priority
  unfolding by_priority
  by_priority-IsWeakOrder = by-IsWeakOrder lt_int-IsTotalOrder (λ l. l.priority)

  started-links :
      (rounds : List (Link → Bool × ℕ × ℕ)) (links : List Link) (cfg : Config F)
      → (run_rounds rounds (new_monitor floats links cfg)).links ≡ stable_sort by_priority links
  unfolding new_monitor
  started-links rounds links cfg = run_rounds-links rounds (new_monitor floats links cfg)

  -- What Best should give: a link that is up and before which, by priority, every link is down, or
  -- none when all links are down.
  pub IsBest : Monitor F → List Link → Option Link → Type 0
  IsBest m links none = All (λ x. link_is_up floats x.name m ≡ false) links
  IsBest m links (some l) = IsFirstUp m links l

  best_of-IsBest :
      (m : Monitor F) (links : List Link) (o : Option Link)
      → m.links ≡ stable_sort by_priority links
      → best_of floats m.links m ≡ o
      → IsBest m links o
  unfolding IsBest
  best_of-IsBest m links none listed e =
      All_of_stable_sort by_priority _ links
        (best_of-none (stable_sort by_priority links) m (rw (← listed) e))
  best_of-IsBest m links (some l) listed e =
      let order = stable_sort-IsSorted by_priority by_priority-IsWeakOrder links in
      let f = best_of-first (stable_sort by_priority links) m l order (rw (← listed) e) in
      record {
        listed = Any_of_stable_sort by_priority (λ x. x ≡ l) links f.listed;
        up = f.up;
        better_down = All_of_stable_sort by_priority _ links f.better_down;
      }

  -- After any rounds of probes, Best gives a link that is up and before which, by priority, every
  -- link is down; when it gives none, all links are down.
  pub run_rounds-IsBest :
      (rounds : List (Link → Bool × ℕ × ℕ)) (links : List Link) (cfg : Config F)
      → IsBest
          (run_rounds rounds (new_monitor floats links cfg))
          links
          (best floats (run_rounds rounds (new_monitor floats links cfg)))
  unfolding best
  run_rounds-IsBest rounds links cfg =
      let m = run_rounds rounds (new_monitor floats links cfg) in
      best_of-IsBest m links (best_of floats m.links m) (started-links rounds links cfg) refl
