-- ===== src/Linkmon/Window.antt =====
-- internal/linkmon/linkmon.go: the ring of a link's outcomes against the list of the last of them.
mod Lists
mod Ring
use sase.Prelude.{
  ℕ, suc, ◌+◌, ◌-◌, ◌≤◌, ◌<◌, ◌≡◌, refl, arith, Bool, inl, inr, List, [], ◌∷◌, ◌++◌, length, take,
  drop, min, ◌⊎◌, length-append, length-drop, take_all, take-append-drop,
}
use mathlib.Core.List.{append_assoc, append-nil}
use sase.Linkmon.{Health, new_health, mark_window, count_fails}
use sase.Linkmon.Window.Lists.{drop-suc, drop_append_short, drop_nil}
use sase.Linkmon.Window.Ring.{
  push, queue, IsRing, lt_or_eq, mark_window-IsRing, queue-filling, queue-full, length-queue,
  push_short, push_long, mark_window-queue, new_health-IsRing,
}

-- A link's outcomes one after the other, the oldest first.
unfoldable pub mark_all : List Bool → Health → Health
mark_all [] h = h
mark_all (ok ∷ outcomes) h = mark_all outcomes (mark_window ok h)

-- The last `size` of a list.
abbrev pub last_of : ℕ → List Bool → List Bool
last_of size outcomes = drop (length outcomes - size) outcomes

lt_or_ge : (i n : ℕ) → (i < n) ⊎ (n ≤ i)
lt_or_ge i n = ground arith

push-last_of :
    (size : ℕ) (ok : Bool) (outcomes : List Bool)
    → 0 < size
    → push size ok (last_of size outcomes) ≡ last_of size (outcomes ++ (ok ∷ []))
push-last_of size ok outcomes p =
    let k = length outcomes - size in
    let len : length (outcomes ++ (ok ∷ [])) ≡ length outcomes + 1 =
      length-append outcomes (ok ∷ []) in
    elim (lt_or_ge (length outcomes) size) [
      | inl l ↦
          let none : length outcomes - size ≡ 0 = omega (arith, l) in
          let still : length (outcomes ++ (ok ∷ [])) - size ≡ 0 = omega (arith, l, len) in
          rw (none, still, push_short size ok outcomes l) refl
      | inr g ↦
          let one : length (outcomes ++ (ok ∷ [])) - size ≡ suc (length outcomes - size) =
            omega (arith, g, len) in
          let full : length (drop k outcomes) ≡ size = omega (arith, length-drop k outcomes, g) in
          rw
            (
              push_long size ok (drop k outcomes) full,
              one,
              drop_append_short (suc k) outcomes (ok ∷ []) (omega (arith, g, p)),
              drop-suc k outcomes,
            )
            refl
    ]

mark_all-queue :
    (size : ℕ) (outcomes before : List Bool) (h : Health)
    → 0 < size
    → IsRing size h
    → queue h ≡ last_of size before
    → IsRing size (mark_all outcomes h)
      × (queue (mark_all outcomes h) ≡ last_of size (before ++ outcomes))
unfolding mark_all
mark_all-queue size [] before h p r e = (r, rw (append-nil before) e)
mark_all-queue size (ok ∷ outcomes) before h p r e =
    let next = mark_window ok h in
    let q : queue next ≡ last_of size (before ++ (ok ∷ [])) =
      rw (mark_window-queue size ok h r, e) (push-last_of size ok before p) in
    let rest =
      mark_all-queue size outcomes (before ++ (ok ∷ [])) next p (mark_window-IsRing size ok h r)
        q in
    (rest.0, rw (← (append_assoc before (ok ∷ []) outcomes)) rest.1)

count_fails-append : (xs ys : List Bool) → count_fails (xs ++ ys) ≡ count_fails xs + count_fails ys
unfolding count_fails
count_fails-append [] ys = omega arith
count_fails-append (x ∷ xs) ys = ground (arith, count_fails-append xs ys)

count_fails-queue :
    (size : ℕ) (h : Health)
    → IsRing size h
    → count_fails (take h.filled h.window) ≡ count_fails (queue h)
count_fails-queue size h r = elim (lt_or_eq h.filled size r.filled_range) [
  | inl l ↦ rw (queue-filling size h r l, r.filling l) refl
  | inr e ↦
      let all : take h.filled h.window ≡ h.window = rw (e, ← r.size_eq) (take_all h.window) in
      let halves : count_fails h.window
          ≡ count_fails (take h.idx h.window) + count_fails (drop h.idx h.window) =
        rw
          (
            ← (count_fails-append (take h.idx h.window) (drop h.idx h.window)),
            take-append-drop h.idx h.window,
          )
          refl in
      rw
        (all, queue-full size h r e, count_fails-append (drop h.idx h.window) (take h.idx h.window))
        (omega (arith, halves))
]

-- Whatever the outcomes of a link's probes, the ring counts as many probes as there were, up to its
-- size, and of the failures those of the last probes, up to its size.
pub mark_all-last_of :
    (size : ℕ) (outcomes : List Bool)
    → 0 < size
    → ((mark_all outcomes (new_health size)).filled ≡ min (length outcomes) size)
      × (count_fails (
            take
              (mark_all outcomes (new_health size)).filled
              (mark_all outcomes (new_health size)).window)
          ≡ count_fails (last_of size outcomes))
unfolding new_health
mark_all-last_of size outcomes p =
    let start : queue (new_health size) ≡ last_of size [] =
      rw (drop_nil (length {A = Bool} [] - size))
        (queue-filling size (new_health size) (new_health-IsRing size p) p) in
    let (ring, q) =
      mark_all-queue size outcomes [] (new_health size) p (new_health-IsRing size p) start in
    let n = length-queue size (mark_all outcomes (new_health size)) ring in
    let len : length (queue (mark_all outcomes (new_health size)))
        ≡ length (last_of size outcomes) =
      rw q refl in
    (
      omega (arith, n, len, length-drop (length outcomes - size) outcomes),
      rw (count_fails-queue size (mark_all outcomes (new_health size)) ring, q) refl,
    )
