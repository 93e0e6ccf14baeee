-- ===== src/Linkmon/Window/Lists.antt =====
-- Lists that are cut and set at one place.
use sase.Prelude.{
  ℕ, zero, suc, ◌+◌, ◌≤◌, ◌<◌, ◌≡◌, refl, ap, arith, Bool, List, [], ◌∷◌, ◌++◌, length, take, drop,
  set, length-set, take_all,
}

module _ {A : Type 0} where
  pub take-suc-set :
      (xs : List A) (i : ℕ) (v : A)
      → i < length xs
      → take (suc i) (set xs i v) ≡ take i xs ++ (v ∷ [])
  take-suc-set [] i v h = absurd (omega arith)
  take-suc-set (x ∷ xs) zero v h = refl
  take-suc-set (x ∷ xs) (suc i) v h = ap (◌∷◌ x) (take-suc-set xs i v (omega arith))

  pub drop-suc-set : (xs : List A) (i : ℕ) (v : A) → drop (suc i) (set xs i v) ≡ drop 1 (drop i xs)
  drop-suc-set [] zero v = refl
  drop-suc-set [] (suc i) v = refl
  drop-suc-set (x ∷ xs) zero v = refl
  drop-suc-set (x ∷ xs) (suc i) v = drop-suc-set xs i v

  pub drop_one_append : (xs ys : List A) → 0 < length xs → drop 1 (xs ++ ys) ≡ drop 1 xs ++ ys
  drop_one_append [] ys h = absurd (omega arith)
  drop_one_append (x ∷ xs) ys h = refl

  pub drop-suc : (k : ℕ) (xs : List A) → drop 1 (drop k xs) ≡ drop (suc k) xs
  drop-suc zero xs = refl
  drop-suc (suc k) [] = refl
  drop-suc (suc k) (x ∷ xs) = drop-suc k xs

  pub drop_append_short :
      (k : ℕ) (xs ys : List A) → k ≤ length xs → drop k (xs ++ ys) ≡ drop k xs ++ ys
  drop_append_short zero xs ys h = refl
  drop_append_short (suc k) [] ys h = absurd (omega arith)
  drop_append_short (suc k) (x ∷ xs) ys h = drop_append_short k xs ys (omega arith)

  pub drop_all : (k : ℕ) (xs : List A) → length xs ≤ k → drop k xs ≡ []
  drop_all zero [] h = refl
  drop_all zero (x ∷ xs) h = absurd (omega arith)
  drop_all (suc k) [] h = refl
  drop_all (suc k) (x ∷ xs) h = drop_all k xs (omega arith)

pub drop_nil : (k : ℕ) → drop {A = Bool} k [] ≡ []
drop_nil zero = refl
drop_nil (suc k) = refl

pub set-last :
    (w : List Bool) (i : ℕ) (ok : Bool) → length w ≡ i + 1 → set w i ok ≡ take i w ++ (ok ∷ [])
set-last w i ok e =
    let len : length (set w i ok) ≡ suc i = rw (length-set w i ok) (omega (arith, e)) in
    let all : take (suc i) (set w i ok) ≡ set w i ok = rw (← len) (take_all (set w i ok)) in
    let front : take (suc i) (set w i ok) ≡ take i w ++ (ok ∷ []) =
      take-suc-set w i ok (omega (arith, e)) in
    rw (← all) front
