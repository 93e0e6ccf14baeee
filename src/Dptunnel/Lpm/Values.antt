-- ===== src/Dptunnel/Lpm/Values.antt =====
-- What a trie returns was inserted: a property of all inserted values holds of every match.
use sase.Prelude.{
  ℕ, zero, suc, ◌*◌, Bool, true, false, not, ◌||◌, Bool-cases, inl, inr, Option, none, some, length,
  ◌==◌, ltb, if◌then◌else◌,
}
use sase.Prelude.Bytes.{Bytes}
use sase.Prelude.Int.{ℤ, pos, negsuc}
use sase.Dptunnel.Lpm.{Node, nil, node, Trie, bit_at, insert_from, insert, walk, longest_prefix}

module _ {V : Type 0} (P : V → Type 0) where
  abbrev pub Each : Option V → Type 0
  Each none = Unit {0}
  Each (some v) = P v

  abbrev pub EachNode : Node V → Type 0
  EachNode nil = Unit {0}
  EachNode (node held l r) = Each held × EachNode l × EachNode r

  Each-insert_from :
      (ip : Bytes) (v : V) (left i : ℕ) (n : Node V)
      → P v
      → EachNode n
      → EachNode (insert_from ip v left i n)
  unfolding insert_from
  Each-insert_from ip v zero i nil p h = (p, tt, tt)
  Each-insert_from ip v zero i (node held l r) p h = (p, h.1, h.2)
  Each-insert_from ip v (suc left) i nil p h = elim (Bool-cases (bit_at ip i == 0)) [
    | inl e ↦ rw e (tt, Each-insert_from ip v left (suc i) nil p tt, tt)
    | inr e ↦ rw e (tt, tt, Each-insert_from ip v left (suc i) nil p tt)
  ]
  Each-insert_from ip v (suc left) i (node held l r) p h = elim (Bool-cases (bit_at ip i == 0)) [
    | inl e ↦ rw e (h.0, Each-insert_from ip v left (suc i) l p h.1, h.2)
    | inr e ↦ rw e (h.0, h.1, Each-insert_from ip v left (suc i) r p h.2)
  ]

  pub Each-insert :
      (t : Trie V) (ip : Bytes) (ones : ℤ) (v : V)
      → P v
      → EachNode t.root
      → EachNode (insert t ip ones v).root
  unfolding insert
  Each-insert t ip (negsuc n) v p h = h
  Each-insert t ip (pos n) v p h =
      elim (Bool-cases (not (length ip * 8 == t.bits) || ltb t.bits n)) [
        | inl e ↦ rw e h
        | inr e ↦ rw e (Each-insert_from ip v n 0 t.root p h)
      ]

  EachNode-if : (b : Bool) (l r : Node V) → EachNode l → EachNode r → EachNode (if b then l else r)
  EachNode-if true l r h k = h
  EachNode-if false l r h k = k

  Each-walk :
      (ip : Bytes) (left i : ℕ) (n : Node V) (best : Option V)
      → EachNode n
      → Each best
      → Each (walk ip left i n best)
  unfolding walk
  Each-walk ip left i nil best h b = b
  Each-walk ip zero i (node none l r) best h b = b
  Each-walk ip zero i (node (some v) l r) best h b = h.0
  Each-walk ip (suc left) i (node none l r) best h b =
      Each-walk ip left (suc i) (if bit_at ip i == 0 then l else r) best
        (EachNode-if (bit_at ip i == 0) l r h.1 h.2) b
  Each-walk ip (suc left) i (node (some v) l r) best h b =
      Each-walk ip left (suc i) (if bit_at ip i == 0 then l else r) (some v)
        (EachNode-if (bit_at ip i == 0) l r h.1 h.2) h.0

  pub Each-longest_prefix : (t : Trie V) (ip : Bytes) → EachNode t.root → Each (longest_prefix t ip)
  unfolding longest_prefix
  Each-longest_prefix t ip h = elim (Bool-cases (not (length ip * 8 == t.bits))) [
    | inl e ↦ rw e tt
    | inr e ↦ rw e (Each-walk ip t.bits 0 t.root none h tt)
  ]
