-- ===== src/Prelude/Dict.antt =====
-- Go maps as association lists, over any key type with a Boolean equality. A key occurs at most
-- once in the maps that the operations build (`IsKeyed`).
use Prim.Native.Nat.{ℕ, suc, ◌≤◌}
use mathlib.Core.Path.{◌≡◌, refl}
use mathlib.Core.Logic.{◌↔◌, inl, inr}
use mathlib.Core.Bool.{Bool, true}
use mathlib.Core.Option.{Option, none, some, some-injective}
use mathlib.Core.List.{List, [], ◌∷◌}
use native.Mathlib.Omega.{arith}
use sase.Prelude.Tests.{◌==◌, ==_iff, if◌then◌else◌, Bool-cases}
use sase.Prelude.Lists.{length}
use sase.Prelude.Bytes.{Bytes, beq, beq_iff}

pub record Key {ℓ} (K : Type ℓ) : Type ℓ where
  pub same : K → K → Bool
  pub same_iff : (a b : K) → (same a b ≡ true) ↔ (a ≡ b)

pub same_refl {ℓ} : {K : Type ℓ} ⦃e : Key K⦄ (k : K) → e.same k k ≡ true
same_refl ⦃e⦄ k = (e.same_iff k k).1 refl

instance abbrev pub nat_key : Key ℕ
nat_key = record { same = ◌==◌; same_iff = ==_iff }

instance abbrev pub bytes_key : Key Bytes
bytes_key = record { same = beq; same_iff = beq_iff }

abbrev pub Dict {ℓ κ} : Type ℓ → Type κ → Type (ℓ ⊔ κ)
Dict K V = List (K × V)

module _ {ℓ κ} {K : Type ℓ} {V : Type κ} ⦃e : Key K⦄ where
  -- v, ok := m[k]
  unfoldable pub get : K → Dict K V → Option V
  get k [] = none
  get k ((j, v) ∷ m) = if e.same j k then some v else get k m

  -- m[k] = v
  unfoldable pub put : K → V → Dict K V → Dict K V
  put k v [] = (k, v) ∷ []
  put k v ((j, w) ∷ m) = if e.same j k then (k, v) ∷ m else (j, w) ∷ put k v m

  -- delete(m, k)
  unfoldable pub del : K → Dict K V → Dict K V
  del k [] = []
  del k ((j, w) ∷ m) = let rest = del k m in if e.same j k then rest else (j, w) ∷ rest

  pub get-put :
      (k j : K) (v : V) (m : Dict K V)
      → get j (put k v m) ≡ (if e.same k j then some v else get j m)
  unfolding get put
  get-put k j v [] = refl
  get-put k j v ((i, w) ∷ m) =
      ground (arith, e.same_iff k j, e.same_iff i k, e.same_iff i j, get-put k j v m)

  pub get-del : (k j : K) (m : Dict K V) → get j (del k m) ≡ (if e.same k j then none else get j m)
  unfolding get del
  get-del k j [] = ground arith
  get-del k j ((i, w) ∷ m) =
      ground (arith, e.same_iff k j, e.same_iff i k, e.same_iff i j, get-del k j m)

  pub length-put : (k : K) (v : V) (m : Dict K V) → length (put k v m) ≤ suc (length m)
  unfolding put
  length-put k v [] = omega arith
  length-put k v ((i, w) ∷ m) = ground (arith, length-put k v m)

  pub length-del : (k : K) (m : Dict K V) → length (del k m) ≤ length m
  unfolding del
  length-del k [] = omega arith
  length-del k ((i, w) ∷ m) = ground (arith, length-del k m)

  -- No key occurs twice.
  abbrev pub IsKeyed : Dict K V → Type (ℓ ⊔ κ)
  IsKeyed [] = Unit
  IsKeyed ((k, v) ∷ m) = (get k m ≡ none) × IsKeyed m

  pub put-IsKeyed : (k : K) (v : V) (m : Dict K V) → IsKeyed m → IsKeyed (put k v m)
  unfolding get put
  put-IsKeyed k v [] h = (refl, tt)
  put-IsKeyed k v ((i, w) ∷ m) h = elim (Bool-cases (e.same i k)) [
    | inl q ↦ let same : i ≡ k = (e.same_iff i k).0 q in rw q (rw (← same) h.0, h.1)
    | inr q ↦ rw q (
      ground (arith, get-put k i v m, e.same_iff k i, e.same_iff i k, h.0),
      put-IsKeyed k v m h.1,
    )
  ]

  pub del-IsKeyed : (k : K) (m : Dict K V) → IsKeyed m → IsKeyed (del k m)
  unfolding get del
  del-IsKeyed k [] h = tt
  del-IsKeyed k ((i, w) ∷ m) h = elim (Bool-cases (e.same i k)) [
    | inl q ↦ rw q (del-IsKeyed k m h.1)
    | inr q ↦ rw q (ground (arith, get-del k i m, h.0), del-IsKeyed k m h.1)
  ]

  pub del-absent : (k : K) (m : Dict K V) → get k m ≡ none → del k m ≡ m
  unfolding get del
  del-absent k [] h = refl
  del-absent k ((i, w) ∷ m) h = elim (Bool-cases (e.same i k)) [
    | inl q ↦ ground arith
    | inr q ↦ ground (arith, del-absent k m)
  ]

  -- What every entry of the map satisfies.
  unfoldable pub Holds : (V → Type 0) → Dict K V → Type (ℓ ⊔ κ)
  Holds P m = (k : K) (v : V) → get k m ≡ some v → P v

  pub put-Holds :
      (P : V → Type 0) (k : K) (v : V) (m : Dict K V) → Holds P m → P v → Holds P (put k v m)
  unfolding Holds
  put-Holds P k v m h p j w g = elim (Bool-cases (e.same k j)) [
    | inl q ↦
        let this : get j (put k v m) ≡ some v = ground (arith, get-put k j v m) in
        rw (some-injective w v (rw (← g) this)) p
    | inr q ↦
        let that : get j (put k v m) ≡ get j m = ground (arith, get-put k j v m) in
        h j w (rw (← that) g)
  ]

  pub del-Holds : (P : V → Type 0) (k : K) (m : Dict K V) → Holds P m → Holds P (del k m)
  unfolding Holds
  del-Holds P k m h j w g = elim (Bool-cases (e.same k j)) [
    | inl q ↦ ground (arith, get-del k j m)
    | inr q ↦
        let that : get j (del k m) ≡ get j m = ground (arith, get-del k j m) in
        h j w (rw (← that) g)
  ]
