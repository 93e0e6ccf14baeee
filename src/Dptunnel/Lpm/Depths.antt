-- ===== src/Dptunnel/Lpm/Depths.antt =====
-- What the trie holds at each depth along an address, and how `insert` changes it.
use sase.Prelude.{
  ℕ, zero, suc, ◌<◌, ◌≡◌, refl, Bool, true, ◌&&◌, Option, none, some, arith, ◌==◌, if◌then◌else◌,
}
use sase.Prelude.Bytes.{Bytes}
use sase.Dptunnel.Lpm.{Node, nil, node, bit_at, insert_from}

bit_at-lt : (ip : Bytes) (i : ℕ) → bit_at ip i < 2
unfolding bit_at
bit_at-lt ip i = omega arith

-- The first `n` bits from bit `i` on agree.
unfoldable pub agree : Bytes → Bytes → ℕ → ℕ → Bool
agree p ip zero i = true
agree p ip (suc n) i = bit_at p i == bit_at ip i && agree p ip n (suc i)

module _ {V : Type 0} where
  -- The value at depth `d` below the node, going down by the bits of `ip` from bit `i` on.
  unfoldable pub value_at : Bytes → ℕ → ℕ → Node V → Option V
  value_at ip d i nil = none
  value_at ip zero i (node held l r) = held
  value_at ip (suc d) i (node held l r) = value_at ip d (suc i) (if bit_at ip i == 0 then l else r)

module _ {V : Type 0} (p : Bytes) (v : V) (ip : Bytes) where
  -- An insertion writes one depth of the addresses that share the prefix, and nothing else.
  pub value_at-insert_from :
      (left d i : ℕ) (t : Node V)
      → value_at ip d i (insert_from p v left i t)
        ≡ (if d == left && agree p ip left i then some v else value_at ip d i t)
  unfolding value_at insert_from agree
  value_at-insert_from zero zero i nil = refl
  value_at-insert_from zero zero i (node held l r) = refl
  value_at-insert_from zero (suc d) i nil = ground arith
  value_at-insert_from zero (suc d) i (node held l r) = ground arith
  value_at-insert_from (suc left) zero i nil = ground arith
  value_at-insert_from (suc left) zero i (node held l r) = ground arith
  value_at-insert_from (suc left) (suc d) i nil =
      ground (arith, bit_at-lt p i, bit_at-lt ip i, value_at-insert_from left d (suc i) nil)
  value_at-insert_from (suc left) (suc d) i (node held l r) = ground (
    arith,
    bit_at-lt p i,
    bit_at-lt ip i,
    value_at-insert_from left d (suc i) l,
    value_at-insert_from left d (suc i) r,
  )
