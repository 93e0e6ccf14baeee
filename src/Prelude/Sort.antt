-- ===== src/Prelude/Sort.antt =====
-- sort.SliceStable as a stable insertion sort: the result of any stable sort by a strict weak order.
use mathlib.Core.Path.{◌≡◌, refl, ◌∙◌, subst}
use mathlib.Core.Logic.{◌⊎◌, inl, inr}
use mathlib.Core.Bool.{Bool, true, false}
use mathlib.Core.List.{List, [], ◌∷◌, Perm, Permᴰ}
use mathlib.Core.List.Perm
use native.Mathlib.Omega.{arith}
use sase.Prelude.Tests.{if◌then◌else◌, Bool-cases}
use sase.Prelude.Lists.{All, Any, All-imp}

module _ {A : Type 0} (less : A → A → Bool) where
  unfoldable pub insert : A → List A → List A
  insert x [] = x ∷ []
  insert x (y ∷ ys) = if less y x then y ∷ insert x ys else x ∷ y ∷ ys

  unfoldable pub stable_sort : List A → List A
  unfolding insert
  stable_sort [] = []
  stable_sort (x ∷ xs) = insert x (stable_sort xs)

  -- No element is less than an earlier one.
  abbrev pub IsSorted : List A → Type 0
  IsSorted [] = Unit {0}
  IsSorted (x ∷ xs) = All (λ y. less y x ≡ false) xs × IsSorted xs

-- `less` is a strict weak order: its negation, read backwards, is a total preorder.
pub record IsWeakOrder {A : Type 0} (less : A → A → Bool) : Type 0 where
  pub asym : (x y : A) → less x y ≡ true → less y x ≡ false
  pub le_trans : (x y z : A) → less y x ≡ false → less z y ≡ false → less z x ≡ false

module _ {A : Type 0} (less : A → A → Bool) (w : IsWeakOrder less) where
  All-insert : (P : A → Type 0) (x : A) (ys : List A) → P x → All P ys → All P (insert less x ys)
  unfolding insert
  All-insert P x [] p h = (p, tt)
  All-insert P x (y ∷ ys) p h = elim (Bool-cases (less y x)) [
    | inl e ↦ rw e (h.0, All-insert P x ys p h.1)
    | inr e ↦ rw e (p, h)
  ]

  insert-IsSorted : (x : A) (ys : List A) → IsSorted less ys → IsSorted less (insert less x ys)
  unfolding insert
  insert-IsSorted x [] h = (tt, tt)
  insert-IsSorted x (y ∷ ys) h = elim (Bool-cases (less y x)) [
    | inl e ↦
        rw e (All-insert (λ z. less z y ≡ false) x ys (w.asym y x e) h.0, insert-IsSorted x ys h.1)
    | inr e ↦ rw e (
      (
        e,
        All-imp (λ z. less z y ≡ false) (λ z. less z x ≡ false) (λ z g. w.le_trans x y z e g) ys
            h.0,
      ),
      h,
    )
  ]

  -- The sorted list is in order.
  pub stable_sort-IsSorted : (xs : List A) → IsSorted less (stable_sort less xs)
  unfolding stable_sort
  stable_sort-IsSorted [] = tt
  stable_sort-IsSorted (x ∷ xs) = insert-IsSorted x (stable_sort less xs) (stable_sort-IsSorted xs)

module _ {A : Type 0} (less : A → A → Bool) where
  insert-perm : (x : A) (ys : List A) → Perm (insert less x ys) (x ∷ ys)
  unfolding insert
  insert-perm x [] = Perm.refl (x ∷ [])
  insert-perm x (y ∷ ys) = elim (Bool-cases (less y x)) [
    | inl e ↦ rw e (Perm.trans (Perm.cons y (insert-perm x ys)) (Perm.swap x y ys))
    | inr e ↦ rw e (Perm.refl (x ∷ y ∷ ys))
  ]

  -- The sorted list has the elements of the input, each as often.
  pub stable_sort-perm : (xs : List A) → Perm (stable_sort less xs) xs
  unfolding stable_sort
  stable_sort-perm [] = Perm.refl []
  stable_sort-perm (x ∷ xs) =
      Perm.trans (insert-perm x (stable_sort less xs)) (Perm.cons x (stable_sort-perm xs))

module _ {A : Type 0} (less : A → A → Bool) (P : A → Type 0) where
  All_of_insert : (x : A) (ys : List A) → All P (insert less x ys) → P x × All P ys
  unfolding insert
  All_of_insert x [] h = (h.0, tt)
  All_of_insert x (y ∷ ys) h = elim (Bool-cases (less y x)) [
    | inl e ↦
        let k : All P (y ∷ insert less x ys) = rw e at h in
        let (p, q) = All_of_insert x ys k.1 in (p, (k.0, q))
    | inr e ↦ let k : All P (x ∷ y ∷ ys) = rw e at h in (k.0, k.1)
  ]

  -- What holds of every element of the sorted list holds of every element of the input.
  pub All_of_stable_sort : (xs : List A) → All P (stable_sort less xs) → All P xs
  unfolding stable_sort
  All_of_stable_sort [] h = tt
  All_of_stable_sort (x ∷ xs) h =
      let (p, q) = All_of_insert x (stable_sort less xs) h in (p, All_of_stable_sort xs q)

module _ {A : Type 0} (less : A → A → Bool) (P : A → Type 0) where
  Any_of_insert : (x : A) (ys : List A) → Any P (insert less x ys) → P x ⊎ Any P ys
  unfolding insert
  Any_of_insert x [] h = h
  Any_of_insert x (y ∷ ys) h = elim (Bool-cases (less y x)) [
    | inl e ↦
        let k : Any P (y ∷ insert less x ys) = rw e at h in
        elim k [
          | inl p ↦ inr (inl p)
          | inr q ↦ elim (Any_of_insert x ys q) [ inl p ↦ inl p | inr p ↦ inr (inr p) ]
        ]
    | inr e ↦ let k : Any P (x ∷ y ∷ ys) = rw e at h in k
  ]

  -- What holds of some element of the sorted list holds of some element of the input.
  pub Any_of_stable_sort : (xs : List A) → Any P (stable_sort less xs) → Any P xs
  unfolding stable_sort
  Any_of_stable_sort [] h = h
  Any_of_stable_sort (x ∷ xs) h = elim (Any_of_insert x (stable_sort less xs) h) [
    | inl p ↦ inl p
    | inr q ↦ inr (Any_of_stable_sort xs q)
  ]

-- What holds of every element does so in any order.
pub All_permᴰ : {A : Type 0} (P : A → Type 0) {xs ys : List A} → Permᴰ xs ys → All P xs → All P ys
All_permᴰ P Permᴰ.nil h = h
All_permᴰ P (Permᴰ.cons e p) h = (subst P e h.0, All_permᴰ P p h.1)
All_permᴰ P (Permᴰ.swap e f) h = (subst P f h.1.0, (subst P e h.0, h.1.1))
All_permᴰ P (Permᴰ.trans p q) h = All_permᴰ P q (All_permᴰ P p h)

-- Where no two distinct elements are tied, the input's order does not matter.
module _ {A : Type 0} (less : A → A → Bool) (w : IsWeakOrder less)
    (tie : (x y : A) → less x y ≡ false → less y x ≡ false → x ≡ y) where
  insert_comm :
      (x y : A) (zs : List A) → insert less x (insert less y zs) ≡ insert less y (insert less x zs)
  unfolding insert
  insert_comm x y [] = ground (arith, w.asym x y, w.asym y x, tie x y)
  insert_comm x y (z ∷ zs) = ground (
    arith,
    w.asym x y,
    w.asym y x,
    w.asym x z,
    w.asym y z,
    w.asym z x,
    w.asym z y,
    tie x y,
    tie x z,
    tie y z,
    w.le_trans x y z,
    w.le_trans y x z,
    insert_comm x y zs,
  )

  -- Permuted inputs have the same sorted list.
  pub stable_sort_permᴰ : {xs ys : List A} → Permᴰ xs ys → stable_sort less xs ≡ stable_sort less ys
  unfolding stable_sort
  stable_sort_permᴰ Permᴰ.nil = refl
  stable_sort_permᴰ (Permᴰ.cons {a = a} {b = b} e p) = cc (stable_sort_permᴰ p)
  stable_sort_permᴰ (Permᴰ.swap {a = a} {b = b} {l = l} e f) =
      cc (insert_comm a b (stable_sort less l))
  stable_sort_permᴰ (Permᴰ.trans p q) = stable_sort_permᴰ p ∙ stable_sort_permᴰ q
