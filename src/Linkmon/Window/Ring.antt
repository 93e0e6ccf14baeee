-- ===== src/Linkmon/Window/Ring.antt =====
-- internal/linkmon/linkmon.go, the ring of a health: as a queue of the last outcomes, the oldest
-- first.
use sase.Prelude.{
  ℕ, suc, ◌+◌, ◌%◌, ◌≤◌, ◌<◌, ◌≡◌, refl, sym, arith, Bool, false, inl, inr, List, [], ◌∷◌, ◌++◌,
  length, take, drop, set, ltb, ◌⊎◌, if◌then◌else◌, length-append, length-take, length-drop,
  length-set, length-replicate,
}
use mathlib.Core.List.{append_assoc, append-nil}
use native.Mathlib.Nat.{mod-eq_of_lt, mod_self}
use sase.Linkmon.{Health, new_health, mark_window}
use sase.Linkmon.Window.Lists.{
  take-suc-set, drop-suc-set, drop_one_append, drop-suc, drop_all, set-last,
}

-- A queue that keeps the last `size` outcomes, the oldest first.
unfoldable pub push : ℕ → Bool → List Bool → List Bool
push size ok q = if ltb (length q) size then q ++ (ok ∷ []) else drop 1 q ++ (ok ∷ [])

-- The ring read from its oldest outcome on.
unfoldable pub queue : Health → List Bool
queue h =
    if ltb h.filled (length h.window)
    then take h.idx h.window
    else drop h.idx h.window ++ take h.idx h.window

pub record IsRing (size : ℕ) (h : Health) : Type 0 where
  pub size_eq : length h.window ≡ size
  pub idx_range : h.idx < size
  pub filled_range : h.filled ≤ size
  pub filling : h.filled < size → h.idx ≡ h.filled

pub lt_or_eq : (i n : ℕ) → i ≤ n → (i < n) ⊎ (i ≡ n)
lt_or_eq i n h = ground arith

next_idx :
    (i n : ℕ) → i < n → (((i + 1) % n ≡ i + 1) × (i + 1 < n)) ⊎ (((i + 1) % n ≡ 0) × (i + 1 ≡ n))
next_idx i n h = elim (lt_or_eq (i + 1) n (omega (arith, h))) [
  | inl l ↦ inl (mod-eq_of_lt l, l)
  | inr e ↦ inr (rw e (mod_self n), e)
]

pub mark_window-IsRing :
    (size : ℕ) (ok : Bool) (h : Health) → IsRing size h → IsRing size (mark_window ok h)
unfolding mark_window
mark_window-IsRing size ok h r =
    let len : length (set h.window h.idx ok) ≡ size = rw (length-set h.window h.idx ok) r.size_eq in
    let next = next_idx h.idx size r.idx_range in
    record {
      size_eq = len;
      idx_range = rw r.size_eq (ground (arith, next, r.idx_range));
      filled_range = ground (arith, r.size_eq, r.filled_range);
      filling = rw r.size_eq (ground (arith, next, r.filled_range, r.filling, r.idx_range));
    }

-- The ring before it is full, and when it is.
pub queue-filling :
    (size : ℕ) (h : Health) → IsRing size h → h.filled < size → queue h ≡ take h.idx h.window
unfolding queue
queue-filling size h r l = ground (arith, r.size_eq, l)

pub queue-full :
    (size : ℕ) (h : Health)
    → IsRing size h
    → h.filled ≡ size
    → queue h ≡ drop h.idx h.window ++ take h.idx h.window
unfolding queue
queue-full size h r l = ground (arith, r.size_eq, l)

pub length-queue : (size : ℕ) (h : Health) → IsRing size h → length (queue h) ≡ h.filled
length-queue size h r = elim (lt_or_eq h.filled size r.filled_range) [
  | inl l ↦
      rw (queue-filling size h r l)
        (omega (arith, length-take h.idx h.window, r.size_eq, r.idx_range, r.filling l))
  | inr e ↦
      rw (queue-full size h r e, length-append (drop h.idx h.window) (take h.idx h.window))
        (omega (
          arith,
          length-take h.idx h.window,
          length-drop h.idx h.window,
          r.size_eq,
          r.idx_range,
          e,
        ))
]

plus_one : (i : ℕ) → i + 1 ≡ suc i
plus_one i = omega arith

pub push_short :
    (size : ℕ) (ok : Bool) (q : List Bool) → length q < size → push size ok q ≡ q ++ (ok ∷ [])
unfolding push
push_short size ok q h = ground arith

pub push_long :
    (size : ℕ) (ok : Bool) (q : List Bool)
    → length q ≡ size
    → push size ok q ≡ drop 1 q ++ (ok ∷ [])
unfolding push
push_long size ok q h = ground arith

-- Where the next outcome goes, and how many there are after it.
mark_window-filled :
    (size : ℕ) (ok : Bool) (h : Health)
    → IsRing size h
    → (mark_window ok h).filled ≡ (if ltb h.filled size then h.filled + 1 else h.filled)
unfolding mark_window
mark_window-filled size ok h r = rw r.size_eq refl

mark_window-idx :
    (size : ℕ) (ok : Bool) (h : Health)
    → IsRing size h
    → (mark_window ok h).idx ≡ (h.idx + 1) % size
unfolding mark_window
mark_window-idx size ok h r = rw r.size_eq refl

mark_window-window : (ok : Bool) (h : Health) → (mark_window ok h).window ≡ set h.window h.idx ok
unfolding mark_window
mark_window-window ok h = refl

-- The ring's list after a probe, while it fills and when it is full; at the last place the next
-- outcome goes to the first.
mark_window-queue_filling :
    (size : ℕ) (ok : Bool) (h : Health)
    → IsRing size h
    → h.filled < size
    → queue (mark_window ok h) ≡ push size ok (queue h)
mark_window-queue_filling size ok h r l =
    let m = mark_window ok h in
    let r' = mark_window-IsRing size ok h r in
    let f = mark_window-filled size ok h r in
    let i = mark_window-idx size ok h r in
    let w = mark_window-window ok h in
    let before : push size ok (queue h) ≡ take h.idx h.window ++ (ok ∷ []) =
      rw (push_short size ok (queue h) (rw (length-queue size h r) l), queue-filling size h r l)
        refl in
    elim (next_idx h.idx size r.idx_range) [
      | inl n ↦
          rw
            (
              queue-filling size m r' (ground (arith, f, r.filling l, n.1)),
              i,
              n.0,
              w,
              plus_one h.idx,
              before,
            )
            (take-suc-set h.window h.idx ok (rw r.size_eq r.idx_range))
      | inr n ↦
          rw
            (
              queue-full size m r' (ground (arith, f, r.filling l, n.1)),
              i,
              n.0,
              w,
              append-nil (set h.window h.idx ok),
              before,
            )
            (set-last h.window h.idx ok (rw r.size_eq (sym n.1)))
    ]

mark_window-queue_full :
    (size : ℕ) (ok : Bool) (h : Health)
    → IsRing size h
    → h.filled ≡ size
    → queue (mark_window ok h) ≡ push size ok (queue h)
mark_window-queue_full size ok h r e =
    let old = drop h.idx h.window in
    let new = take h.idx h.window in
    let r' = mark_window-IsRing size ok h r in
    let f = mark_window-filled size ok h r in
    let i = mark_window-idx size ok h r in
    let w = mark_window-window ok h in
    let now = queue-full size (mark_window ok h) r' (ground (arith, f, e)) in
    let rest : 0 < length old = omega (arith, length-drop h.idx h.window, r.size_eq, r.idx_range) in
    let before : push size ok (queue h) ≡ (drop 1 old ++ new) ++ (ok ∷ []) =
      rw
        (
          push_long size ok (queue h) (rw (length-queue size h r) e),
          queue-full size h r e,
          drop_one_append old new rest,
        )
        refl in
    elim (next_idx h.idx size r.idx_range) [
      | inl n ↦
          rw
            (
              now,
              i,
              n.0,
              w,
              before,
              plus_one h.idx,
              take-suc-set h.window h.idx ok (rw r.size_eq r.idx_range),
              drop-suc-set h.window h.idx ok,
              append_assoc (drop 1 old) new (ok ∷ []),
            )
            refl
      | inr n ↦
          rw
            (
              now,
              i,
              n.0,
              w,
              before,
              append-nil (set h.window h.idx ok),
              drop-suc h.idx h.window,
              drop_all (suc h.idx) h.window (omega (arith, n.1, r.size_eq)),
            )
            (set-last h.window h.idx ok (rw r.size_eq (sym n.1)))
    ]

pub mark_window-queue :
    (size : ℕ) (ok : Bool) (h : Health)
    → IsRing size h
    → queue (mark_window ok h) ≡ push size ok (queue h)
mark_window-queue size ok h r = elim (lt_or_eq h.filled size r.filled_range) [
  | inl l ↦ mark_window-queue_filling size ok h r l
  | inr e ↦ mark_window-queue_full size ok h r e
]

pub new_health-IsRing : (size : ℕ) → 0 < size → IsRing size (new_health size)
unfolding new_health
new_health-IsRing size h = record {
  size_eq = length-replicate size false;
  idx_range = h;
  filled_range = omega arith;
  filling = λ l. refl;
}
