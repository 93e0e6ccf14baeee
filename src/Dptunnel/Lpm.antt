-- ===== src/Dptunnel/Lpm.antt =====
-- internal/dptunnel/lpm.go: longest-prefix match on a binary trie, one trie for an address family.
-- The value type stands for *siteEntry. A node's fields hasValue and value are one option.
pub mod Depths
pub mod Prefix
pub mod Reference
pub mod Values
mod Tests
use sase.Prelude.{
  ℕ, zero, suc, ◌+◌, ◌-◌, ◌*◌, ◌/◌, ◌%◌, ◌^◌, Bool, true, false, not, ◌&&◌, ◌||◌, Option, none,
  some, List, [], ◌∷◌, length, get_or, ◌==◌, ltb, if◌then◌else◌,
}
use sase.Prelude.Bytes.{Bytes}
use sase.Prelude.Int.{ℤ, pos, negsuc}

-- `nil` is the nil pointer; child[0] comes before child[1].
pub data Node (V : Type 0) : Type 0 where
  nil : Node V
  node : Option V → Node V → Node V → Node V

pub record Trie (V : Type 0) : Type 0 where
  pub root : Node V
  pub bits : ℕ

module _ {V : Type 0} where
  unfoldable pub new_trie : ℕ → Trie V
  new_trie bits = record { root = node none nil nil; bits = bits }

-- The `i`-th bit of the address, from the most significant one.
unfoldable pub bit_at : Bytes → ℕ → ℕ
bit_at ip i = get_or ip (i / 8) 0 / 2 ^ (7 - i % 8) % 2

module _ {V : Type 0} (ip : Bytes) (value : V) where
  -- The loop of insert with `left` rounds to go, at bit `i`; a nil child is made on the way.
  unfoldable pub insert_from : ℕ → ℕ → Node V → Node V
  insert_from zero i nil = node (some value) nil nil
  insert_from zero i (node held l r) = node (some value) l r
  insert_from (suc left) i nil =
      let below = insert_from left (suc i) nil in
      if bit_at ip i == 0 then node none below nil else node none nil below
  insert_from (suc left) i (node held l r) =
      let below_l = insert_from left (suc i) l in
      let below_r = insert_from left (suc i) r in
      if bit_at ip i == 0 then node held below_l r else node held l below_r

module _ {V : Type 0} where
  -- A key of another family, or a length out of range, is skipped.
  unfoldable pub insert : Trie V → Bytes → ℤ → V → Trie V
  insert t ip (negsuc n) value = t
  insert t ip (pos ones) value =
      if not (length ip * 8 == t.bits) || ltb t.bits ones
      then t
      else record t { root = insert_from ip value ones 0 t.root }

  abbrev pub deeper : Option V → Option V → Option V
  deeper none best = best
  deeper (some v) best = some v

  -- The loop of longestPrefix with `left` bits to go.
  unfoldable pub walk : Bytes → ℕ → ℕ → Node V → Option V → Option V
  walk ip left i nil best = best
  walk ip zero i (node held l r) best = deeper held best
  walk ip (suc left) i (node held l r) best =
      walk ip left (suc i) (if bit_at ip i == 0 then l else r) (deeper held best)

  unfoldable pub longest_prefix : Trie V → Bytes → Option V
  longest_prefix t ip = if not (length ip * 8 == t.bits) then none else walk ip t.bits 0 t.root none
