-- ===== src/Dptunnel/Lpm/Reference.antt =====
-- The trie against a scan over all the prefixes inserted.
use sase.Prelude.{
  ℕ, zero, suc, ◌*◌, ◌≤◌, ◌≡◌, refl, sym, ap, ◌∙◌, Bool, ◌&&◌, Option, none, some, List, [], ◌∷◌,
  arith, All, length, ◌==◌, ==_refl, ◌≢◌, leb, if◌then◌else◌,
}
use sase.Prelude.Bytes.{Bytes, AreBytes}
use sase.Prelude.Int.{ℤ, pos, negsuc}
use sase.Dptunnel.Lpm.{
  Node, nil, node, Trie, new_trie, bit_at, insert, insert_from, walk, deeper, longest_prefix,
}
use sase.Dptunnel.Lpm.Prefix.{begins_with, agree-begins_with}
use sase.Dptunnel.Lpm.Depths.{agree, value_at, value_at-insert_from}

pub record Entry (V : Type 0) : Type 0 where
  pub ip : Bytes
  pub ones : ℕ
  pub value : V

bits-new_trie : (V : Type 0) (bits : ℕ) → (new_trie {V = V} bits).bits ≡ bits
unfolding new_trie
bits-new_trie V bits = refl

module _ {V : Type 0} where
  -- One insertion after another, as rebuildRoutesLocked makes them.
  pub insert_all : Trie V → List (Entry V) → Trie V
  insert_all t [] = t
  insert_all t (e ∷ es) = insert_all (insert t e.ip (pos e.ones) e.value) es

  -- The longest match so far, with its length; of two equally long ones the later wins.
  abbrev longer : Bytes → Option (ℕ × V) → Entry V → Option (ℕ × V)
  longer ip none e = if begins_with e.ip e.ones ip then some (e.ones, e.value) else none
  longer ip (some (k, v)) e =
      if begins_with e.ip e.ones ip && leb k e.ones then some (e.ones, e.value) else some (k, v)

  pub scan_from : Bytes → Option (ℕ × V) → List (Entry V) → Option (ℕ × V)
  scan_from ip best [] = best
  scan_from ip best (e ∷ es) = scan_from ip (longer ip best e) es

  abbrev pub value_of : Option (ℕ × V) → Option V
  value_of none = none
  value_of (some (k, v)) = some v

  -- The linear scan over the prefixes.
  pub scan : Bytes → List (Entry V) → Option V
  unfolding scan_from
  scan ip es = value_of (scan_from ip none es)

  abbrev tag : Option V → Option (ℕ × V)
  tag none = none
  tag (some v) = some (0, v)

  abbrev raise : Option (ℕ × V) → Option V → Option (ℕ × V)
  raise none here = tag here
  raise (some (k, v)) here = some (suc k, v)

  -- The greatest depth up to `n` with a value.
  deepest : ℕ → (ℕ → Option V) → Option (ℕ × V)
  deepest zero f = tag (f 0)
  deepest (suc n) f = raise (deepest n (λ d. f (suc d))) (f 0)

  deepest_ext : (n : ℕ) (f g : ℕ → Option V) → ((d : ℕ) → f d ≡ g d) → deepest n f ≡ deepest n g
  unfolding deepest
  deepest_ext zero f g h = ap tag (h 0)
  deepest_ext (suc n) f g h =
      cc (deepest_ext n (λ d. f (suc d)) (λ d. g (suc d)) (λ d. h (suc d)), h 0)

  abbrev write : Bool → ℕ → V → (ℕ → Option V) → ℕ → Option V
  write b o v f d = if d == o && b then some v else f d

  abbrev longest : Bool → ℕ → V → Option (ℕ × V) → Option (ℕ × V)
  longest b o v none = if b then some (o, v) else none
  longest b o v (some (k, w)) = if b && leb k o then some (o, v) else some (k, w)

  deepest-write :
      (b : Bool) (v : V) (n o : ℕ) (f : ℕ → Option V)
      → o ≤ n
      → deepest n (write b o v f) ≡ longest b o v (deepest n f)
  unfolding deepest
  deepest-write b v zero zero f h = ground arith
  deepest-write b v zero (suc o) f h = absurd (omega arith)
  deepest-write b v (suc n) zero f h =
      ground
        (arith, deepest_ext n (λ d. write b 0 v f (suc d)) (λ d. f (suc d)) (λ d. ground arith))
  deepest-write b v (suc n) (suc o) f h = ground (
    arith,
    deepest_ext n (λ d. write b (suc o) v f (suc d)) (write b o v (λ d. f (suc d)))
        (λ d. ground arith),
    deepest-write b v n o (λ d. f (suc d)),
  )

  below : Bytes → ℕ → Node V → ℕ → Option V
  below ip i t d = value_at ip d i t

  deepest-nil : (ip : Bytes) (n i : ℕ) → deepest n (below ip i nil) ≡ none
  unfolding deepest below value_at
  deepest-nil ip zero i = refl
  deepest-nil ip (suc n) i = rw (
    deepest_ext n (λ d. value_at ip (suc d) i nil) (λ d. value_at ip d i nil) (λ d. refl),
    deepest-nil ip n i,
  )

  deeper-raise :
      (o : Option (ℕ × V)) (held best : Option V)
      → deeper (value_of o) (deeper held best) ≡ deeper (value_of (raise o held)) best
  deeper-raise o held best = ground arith

  walk-eq-deepest :
      (ip : Bytes) (left i : ℕ) (t : Node V) (best : Option V)
      → walk ip left i t best ≡ deeper (value_of (deepest left (below ip i t))) best
  unfolding walk
  walk-eq-deepest ip left i nil best = rw deepest-nil
  walk-eq-deepest ip zero i (node held l r) best = unfold deepest below value_at in ground arith
  walk-eq-deepest ip (suc left) i (node held l r) best =
      let child = if bit_at ip i == 0 then l else r in
      walk-eq-deepest ip left (suc i) child (deeper held best)
      ∙ unfold deepest below value_at in
        deeper-raise (deepest left (λ d. value_at ip d (suc i) child)) held best

  -- Every prefix has the length of the family's addresses, and at most as many bits.
  abbrev pub FitsFamily : ℕ → Entry V → Type 0
  FitsFamily bits e = (length e.ip * 8 ≡ bits) × (e.ones ≤ bits) × AreBytes e.ip

  found : Trie V → Bytes → Option (ℕ × V)
  found t ip = deepest t.bits (below ip 0 t.root)

  bits-insert : (t : Trie V) (e : Entry V) → (insert t e.ip (pos e.ones) e.value).bits ≡ t.bits
  unfolding insert
  bits-insert t e = ground arith

  insert_fits :
      (t : Trie V) (e : Entry V)
      → FitsFamily t.bits e
      → insert t e.ip (pos e.ones) e.value
        ≡ record t { root = insert_from e.ip e.value e.ones 0 t.root }
  unfolding insert
  insert_fits t e h = ground arith

  longest-eq-longer :
      (ip : Bytes) (best : Option (ℕ × V)) (e : Entry V)
      → longest (begins_with e.ip e.ones ip) e.ones e.value best ≡ longer ip best e
  longest-eq-longer ip none e = refl
  longest-eq-longer ip (some (k, w)) e = refl

  deeper-none : (o : Option V) → deeper o none ≡ o
  deeper-none none = refl
  deeper-none (some v) = refl

  deepest_empty : (n : ℕ) (ip : Bytes) → deepest n (below ip 0 (node none nil nil)) ≡ none
  unfolding deepest below value_at
  deepest_empty zero ip = refl
  deepest_empty (suc n) ip = rw (
    deepest_ext n (λ d. value_at ip d 1 (if bit_at ip 0 == 0 then nil else nil))
        (λ d. value_at ip d 1 nil) (λ d. ground arith),
    deepest-nil ip n 1,
  )

  found-insert :
      (t : Trie V) (e : Entry V) (ip : Bytes)
      → length ip * 8 ≡ t.bits
      → AreBytes ip
      → FitsFamily t.bits e
      → found (insert t e.ip (pos e.ones) e.value) ip ≡ longer ip (found t ip) e
  unfolding found below
  found-insert t e ip l a h =
      ap (λ r. deepest r.bits (below ip 0 r.root)) (insert_fits t e h)
      ∙ deepest_ext t.bits (λ d. value_at ip d 0 (insert_from e.ip e.value e.ones 0 t.root))
          (write (agree e.ip ip e.ones 0) e.ones e.value (λ d. value_at ip d 0 t.root))
          (λ d. value_at-insert_from e.ip e.value ip e.ones d 0 t.root)
      ∙ deepest-write (agree e.ip ip e.ones 0) e.value t.bits e.ones (λ d. value_at ip d 0 t.root)
          h.1
      ∙ ap (λ b. longest b e.ones e.value (found t ip))
          (agree-begins_with e.ip ip e.ones (omega (arith, l, h.0)) (omega (arith, h.0, h.1)) h.2 a)
      ∙ longest-eq-longer ip (found t ip) e

  longest_prefix-found :
      (t : Trie V) (ip : Bytes)
      → length ip * 8 ≡ t.bits
      → longest_prefix t ip ≡ value_of (found t ip)
  unfolding longest_prefix found
  longest_prefix-found t ip h =
      rw (h, ==_refl t.bits, walk-eq-deepest)
        (deeper-none (value_of (deepest t.bits (below ip 0 t.root))))

  found-insert_all :
      (t : Trie V) (es : List (Entry V)) (ip : Bytes)
      → length ip * 8 ≡ t.bits
      → AreBytes ip
      → All (FitsFamily t.bits) es
      → found (insert_all t es) ip ≡ scan_from ip (found t ip) es
  unfolding insert_all scan_from
  found-insert_all t [] ip l a h = refl
  found-insert_all t (e ∷ es) ip l a h =
      found-insert_all (insert t e.ip (pos e.ones) e.value) es ip (rw (bits-insert t e) l) a
        (rw (bits-insert t e) h.1)
      ∙ ap (λ b. scan_from ip b es) (found-insert t e ip l a h.0)

  bits-insert_all : (t : Trie V) (es : List (Entry V)) → (insert_all t es).bits ≡ t.bits
  unfolding insert_all
  bits-insert_all t [] = refl
  bits-insert_all t (e ∷ es) =
      bits-insert_all (insert t e.ip (pos e.ones) e.value) es ∙ bits-insert t e

  found-new_trie : (bits : ℕ) (ip : Bytes) → found (new_trie {V = V} bits) ip ≡ none
  unfolding found new_trie
  found-new_trie bits ip = deepest_empty bits ip

  -- A trie that was filled by any insertions of its family's prefixes answers every address of the
  -- family as the linear scan over those prefixes does, which compares bytes: the value of the longest
  -- prefix that the address begins with, of the last inserted where a prefix was inserted again, or
  -- none. The address and the prefixes consist of bytes.
  pub longest_prefix-eq-scan :
      (bits : ℕ) (es : List (Entry V)) (ip : Bytes)
      → length ip * 8 ≡ bits
      → AreBytes ip
      → All (FitsFamily bits) es
      → longest_prefix (insert_all (new_trie bits) es) ip ≡ scan ip es
  unfolding scan
  longest_prefix-eq-scan bits es ip h a fits =
      longest_prefix-found (insert_all (new_trie bits) es) ip
        (h ∙ sym (bits-insert_all (new_trie bits) es ∙ bits-new_trie V bits))
      ∙ ap value_of (
          found-insert_all (new_trie bits) es ip (rw (bits-new_trie V bits) h) a
            (rw (bits-new_trie V bits) fits)
          ∙ ap (λ b. scan_from ip b es) (found-new_trie bits ip))

  -- An address or a prefix of another length finds nothing and changes nothing.
  pub wrong_family :
      (t : Trie V) (ip : Bytes) (ones : ℤ) (v : V)
      → length ip * 8 ≢ t.bits
      → (longest_prefix t ip ≡ none) × (insert t ip ones v ≡ t)
  unfolding longest_prefix insert
  wrong_family t ip (pos n) v h = (ground arith, ground arith)
  wrong_family t ip (negsuc n) v h = (ground arith, refl)
