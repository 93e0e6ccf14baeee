-- ===== src/Prelude/Result.antt =====
-- A Go pair of a value and an error, of which exactly one is meant.
use mathlib.Core.Path.{◌≡◌, refl}
use mathlib.Core.Logic.{◌⊎◌, inl, inr}

pub data Result (E A : Type 0) : Type 0 where
  ok : A → Result E A
  err : E → Result E A

pub Result-cases :
    {E A : Type 0} (r : Result E A) → ((a : A) × (r ≡ ok a)) ⊎ ((e : E) × (r ≡ err e))
Result-cases (ok a) = inl (a, refl)
Result-cases (err e) = inr (e, refl)

pub ok-injective :
    {E A : Type 0} (a b : A) → (the_ok : Result E A) → the_ok ≡ ok a → the_ok ≡ ok b → a ≡ b
ok-injective a b r h k = cc

pub ok-not-err : {E A : Type 0} (r : Result E A) {a : A} (e : E) → r ≡ ok a → r ≡ err e → ⊥
ok-not-err r e h k = cc
