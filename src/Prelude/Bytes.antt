-- ===== src/Prelude/Bytes.antt =====
-- Go strings and byte slices: lists of bytes, with the functions of package strings that the code
-- calls. `beq` is ==, `blt` is < on strings.
use Prim.Native.Char.{code}
use Prim.Native.String.{String}
use Prim.Native.Nat.{ℕ, ◌<◌}
use mathlib.Core.Path.{◌≡◌, refl, ap, sym, ◌∙◌}
use mathlib.Core.Logic.{◌↔◌}
use mathlib.Core.Bool.{Bool, true, false, ◌&&◌, ◌||◌}
use mathlib.Core.List.{List, [], ◌∷◌, ◌++◌, reverse}
use native.Mathlib.Omega.{arith}
use sase.Prelude.Tests.{◌==◌, ltb, if◌then◌else◌}
use sase.Prelude.Lists.{length, drop, All}

abbrev pub Bytes : Type 0
Bytes = List ℕ

-- The numbers of the list are bytes.
abbrev pub AreBytes : Bytes → Type 0
AreBytes b = All (λ x. x < 256) b

-- A literal: its code points, which are its bytes where it is ASCII.
abbrev pub bytes : String → Bytes
bytes String.[] = []
bytes (String.◌∷◌ c s) = code c ∷ bytes s

unfoldable pub beq : Bytes → Bytes → Bool
beq [] [] = true
beq (x ∷ xs) (y ∷ ys) = x == y && beq xs ys
beq _ _ = false

pub beq→eq : (a b : Bytes) → beq a b ≡ true → a ≡ b
unfolding beq
beq→eq [] [] h = refl
beq→eq [] (y ∷ ys) h = ground arith
beq→eq (x ∷ xs) [] h = ground arith
beq→eq (x ∷ xs) (y ∷ ys) h = ground (arith, beq→eq xs ys)

pub beq_refl : (a : Bytes) → beq a a ≡ true
unfolding beq
beq_refl [] = refl
beq_refl (x ∷ xs) = ground (arith, beq_refl xs)

pub beq_iff : (a b : Bytes) → (beq a b ≡ true) ↔ (a ≡ b)
beq_iff a b = (beq→eq a b, λ e. ap (beq a) (sym e) ∙ beq_refl a)

unfoldable pub blt : Bytes → Bytes → Bool
blt [] [] = false
blt [] (y ∷ ys) = true
blt (x ∷ xs) [] = false
blt (x ∷ xs) (y ∷ ys) = ltb x y || (x == y && blt xs ys)

pub blt_irrefl : (a : Bytes) → blt a a ≡ false
unfolding blt
blt_irrefl [] = refl
blt_irrefl (x ∷ xs) = ground (arith, blt_irrefl xs)

pub blt_trans : (a b c : Bytes) → blt a b ≡ true → blt b c ≡ true → blt a c ≡ true
unfolding blt
blt_trans [] [] c h k = ground arith
blt_trans [] (y ∷ ys) [] h k = ground arith
blt_trans [] (y ∷ ys) (z ∷ zs) h k = refl
blt_trans (x ∷ xs) [] c h k = ground arith
blt_trans (x ∷ xs) (y ∷ ys) [] h k = ground arith
blt_trans (x ∷ xs) (y ∷ ys) (z ∷ zs) h k = ground (arith, blt_trans xs ys zs)

pub blt_trichotomy : (a b : Bytes) → blt a b ≡ false → blt b a ≡ false → a ≡ b
unfolding blt
blt_trichotomy [] [] h k = refl
blt_trichotomy [] (y ∷ ys) h k = ground arith
blt_trichotomy (x ∷ xs) [] h k = ground arith
blt_trichotomy (x ∷ xs) (y ∷ ys) h k = ground (arith, blt_trichotomy xs ys)

-- strings.HasPrefix
unfoldable pub has_prefix : Bytes → Bytes → Bool
has_prefix s [] = true
has_prefix [] (p ∷ ps) = false
has_prefix (x ∷ s) (p ∷ ps) = x == p && has_prefix s ps

pub has_prefix-append : (p s : Bytes) → has_prefix (p ++ s) p ≡ true
unfolding has_prefix
has_prefix-append [] s = refl
has_prefix-append (x ∷ p) s = ground (arith, has_prefix-append p s)

pub has_prefix→append : (s p : Bytes) → has_prefix s p ≡ true → s ≡ p ++ drop (length p) s
unfolding has_prefix
has_prefix→append s [] h = refl
has_prefix→append [] (p ∷ ps) h = ground arith
has_prefix→append (x ∷ s) (p ∷ ps) h = ground (arith, has_prefix→append s ps)

-- strings.HasSuffix
unfoldable pub has_suffix : Bytes → Bytes → Bool
unfolding has_prefix
has_suffix s t = has_prefix (reverse s) (reverse t)

-- strings.Contains
unfoldable pub contains : Bytes → Bytes → Bool
unfolding has_prefix
contains [] sub = has_prefix [] sub
contains (x ∷ s) sub = has_prefix (x ∷ s) sub || contains s sub

-- strings.TrimPrefix
unfoldable pub trim_prefix : Bytes → Bytes → Bytes
unfolding has_prefix
trim_prefix s p = if has_prefix s p then drop (length p) s else s

pub contains-append : (pre sub post : Bytes) → contains (pre ++ (sub ++ post)) sub ≡ true
unfolding contains
contains-append [] [] [] = unfold has_prefix in refl
contains-append [] [] (x ∷ post) = unfold has_prefix in refl
contains-append [] (x ∷ sub) post = ground (arith, has_prefix-append (x ∷ sub) post)
contains-append (x ∷ pre) sub post = ground (arith, contains-append pre sub post)
