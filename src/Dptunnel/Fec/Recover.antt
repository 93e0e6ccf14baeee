-- ===== src/Dptunnel/Fec/Recover.antt =====
-- Parity gives back the one body that is missing from a block, byte for byte.
use Prim.Native.Nat.{bit_xor}
use mathlib.Core.List.{Permᴰ}
use sase.Prelude.{
  ℕ, zero, suc, ◌+◌, ◌-◌, ◌≤◌, ◌<◌, ◌≡◌, ◌≢◌, refl, sym, ap, ◌∙◌, arith, true, false, Bool-cases,
  Option-cases, inl, inr, List, [], ◌∷◌, ◌++◌, none, some, length, length-append, length-replicate,
  replicate, get_or, ltb, ◌==◌,
}
use sase.Prelude.Bits.{bit_xor_comm, bit_xor_assoc, bit_xor_self, bit_xor-zero, zero-bit_xor}
use sase.Prelude.Bytes.{Bytes}
use sase.Prelude.Dict.{Dict, get, del, nat_key}
use sase.Dptunnel.Fec.{
  FecEncoder, FecDecoder, FecBlock, new_fec_encoder, add, xor_loop, xor_into, xor_all,
  first_missing, try_recover,
}

-- A byte of a body, with zeros after its end.
abbrev pub byte_at : ℕ → Bytes → ℕ
byte_at i b = get_or b i 0

byte-xor_loop :
    (d src : Bytes) (i : ℕ)
    → length src ≤ length d
    → byte_at i (xor_loop d src) ≡ bit_xor (byte_at i d) (byte_at i src)
unfolding xor_loop
byte-xor_loop [] [] i h = sym (bit_xor-zero 0)
byte-xor_loop [] (y ∷ src) i h = absurd (omega arith)
byte-xor_loop (x ∷ d) [] i h = sym (bit_xor-zero (byte_at i (x ∷ d)))
byte-xor_loop (x ∷ d) (y ∷ src) zero h = refl
byte-xor_loop (x ∷ d) (y ∷ src) (suc i) h = byte-xor_loop d src i (omega arith)

byte-pad : (d : Bytes) (n i : ℕ) → byte_at i (d ++ replicate n 0) ≡ byte_at i d
byte-pad [] zero i = refl
byte-pad [] (suc n) zero = refl
byte-pad [] (suc n) (suc i) = byte-pad [] n i
byte-pad (x ∷ d) n zero = refl
byte-pad (x ∷ d) n (suc i) = byte-pad d n i

length-pad : (d : Bytes) (n : ℕ) → length (d ++ replicate n 0) ≡ length d + n
length-pad d n = length-append d (replicate n 0) ∙ ap (λ k. length d + k) (length-replicate n 0)

byte-xor_into :
    (dst src : Bytes) (i : ℕ)
    → byte_at i (xor_into dst src) ≡ bit_xor (byte_at i dst) (byte_at i src)
unfolding xor_into
byte-xor_into dst src i = elim (Bool-cases (ltb (length dst) (length src))) [
  | inl e ↦ rw e (
      byte-xor_loop (dst ++ replicate (length src - length dst) 0) src i
        (omega (arith, length-pad dst (length src - length dst)))
      ∙ ap (λ x. bit_xor x (byte_at i src)) (byte-pad dst (length src - length dst) i))
  | inr e ↦ rw e (byte-xor_loop dst src i (ground arith))
]

-- The exclusive or of one byte of all the bodies.
pub xor_at : ℕ → List Bytes → ℕ
xor_at i [] = 0
xor_at i (b ∷ bs) = bit_xor (byte_at i b) (xor_at i bs)

swap_first : (a b c : ℕ) → bit_xor a (bit_xor b c) ≡ bit_xor b (bit_xor a c)
swap_first a b c =
    sym (bit_xor_assoc a b c) ∙ ap (λ x. bit_xor x c) (bit_xor_comm a b) ∙ bit_xor_assoc b a c

xor_at-permᴰ : (i : ℕ) {bs cs : List Bytes} → Permᴰ bs cs → xor_at i bs ≡ xor_at i cs
unfolding xor_at
xor_at-permᴰ i Permᴰ.nil = refl
xor_at-permᴰ i (Permᴰ.cons e p) = cc (xor_at-permᴰ i p)
xor_at-permᴰ i (Permᴰ.swap {a = a} {b = b} {l = l} e f) =
    cc (swap_first (byte_at i a) (byte_at i b) (xor_at i l))
xor_at-permᴰ i (Permᴰ.trans p q) = xor_at-permᴰ i p ∙ xor_at-permᴰ i q

-- The bodies of a block, added to the encoder one after another.
pub add_all : FecEncoder → List Bytes → FecEncoder
add_all e [] = e
add_all e (b ∷ bs) = add_all (add e b).0 bs

byte-add_all :
    (i : ℕ) (bs : List Bytes) (e : FecEncoder)
    → byte_at i (add_all e bs).parity ≡ bit_xor (byte_at i e.parity) (xor_at i bs)
unfolding add_all add xor_at
byte-add_all i [] e = sym (bit_xor-zero (byte_at i e.parity))
byte-add_all i (b ∷ bs) e =
    byte-add_all i bs (add e b).0
    ∙ ap (λ x. bit_xor x (xor_at i bs)) (byte-xor_into e.parity b i)
    ∙ bit_xor_assoc (byte_at i e.parity) (byte_at i b) (xor_at i bs)

unfoldable pub bodies : Dict ℕ Bytes → List Bytes
bodies [] = []
bodies ((k, b) ∷ m) = b ∷ bodies m

byte-xor_all :
    (i : ℕ) (m : Dict ℕ Bytes) (rec : Bytes)
    → byte_at i (xor_all rec m) ≡ bit_xor (byte_at i rec) (xor_at i (bodies m))
unfolding xor_all xor_at bodies
byte-xor_all i [] rec = sym (bit_xor-zero (byte_at i rec))
byte-xor_all i ((k, b) ∷ m) rec =
    byte-xor_all i m (xor_into rec b)
    ∙ ap (λ x. bit_xor x (xor_at i (bodies m))) (byte-xor_into rec b i)
    ∙ bit_xor_assoc (byte_at i rec) (byte_at i b) (xor_at i (bodies m))

xor_at-middle :
    (i : ℕ) (before after : List Bytes) (b : Bytes)
    → xor_at i (before ++ b ∷ after) ≡ bit_xor (byte_at i b) (xor_at i (before ++ after))
unfolding xor_at
xor_at-middle i [] after b = refl
xor_at-middle i (c ∷ before) after b =
    ap (bit_xor (byte_at i c)) (xor_at-middle i before after b)
    ∙ swap_first (byte_at i c) (byte_at i b) (xor_at i (before ++ after))

undo : (a s : ℕ) → bit_xor (bit_xor 0 (bit_xor 0 (bit_xor a s))) s ≡ a
undo a s =
    ap (λ x. bit_xor x s) (zero-bit_xor (bit_xor 0 (bit_xor a s)) ∙ zero-bit_xor (bit_xor a s))
    ∙ bit_xor_assoc a s s
    ∙ ap (bit_xor a) (bit_xor_self s)
    ∙ bit_xor-zero a

recovered_byte :
    (k : ℕ) (before after : List Bytes) (b : Bytes) (received : Dict ℕ Bytes) (i : ℕ)
    → Permᴰ (bodies received) (before ++ after)
    → byte_at i
        (xor_all (xor_into [] (add_all (new_fec_encoder k) (before ++ b ∷ after)).parity) received)
      ≡ byte_at i b
unfolding new_fec_encoder
recovered_byte k before after b received i p =
    let parity = (add_all (new_fec_encoder k) (before ++ b ∷ after)).parity in
    let others = xor_at i (before ++ after) in
    byte-xor_all i received (xor_into [] parity)
    ∙ ap (bit_xor (byte_at i (xor_into [] parity))) (xor_at-permᴰ i p)
    ∙ ap (λ x. bit_xor x others)
        (byte-xor_into [] parity i
          ∙ ap (bit_xor 0) (
              byte-add_all i (before ++ b ∷ after) (new_fec_encoder k)
              ∙ ap (bit_xor 0) (xor_at-middle i before after b)))
    ∙ undo (byte_at i b) others

some_not_none : (x : Bytes) → ¬ (some x ≡ none)
some_not_none x e = cc

first_missing_lem :
    (received : Dict ℕ Bytes) (m left i : ℕ)
    → get m received ≡ none
    → i ≤ m
    → m < i + left
    → ((j : ℕ) → i ≤ j → j < m → get j received ≢ none)
    → first_missing received left i ≡ m
unfolding first_missing
first_missing_lem received m zero i g h k present = absurd (omega arith)
first_missing_lem received m (suc left) i g h k present = elim (Option-cases (get i received)) [
  | inl e ↦ elim (Bool-cases (ltb i m)) [
    | inl below ↦ absurd (present i (omega arith) (ground arith) e)
    | inr reached ↦ rw (first_missing, e) (ground arith)
  ]
  | inr (x, e) ↦ elim (Bool-cases (i == m)) [
    | inl same ↦ absurd (some_not_none x (sym e ∙ ap (λ j. get j received) (ground arith) ∙ g))
    | inr other ↦
        rw (first_missing, e)
          (first_missing_lem received m left (suc i) g (ground arith) (omega arith)
            (λ j above below. present j (omega arith) below))
  ]
]

recovers :
    (d : FecDecoder) (id : ℕ) (blk : FecBlock)
    → get id d.blocks ≡ some blk
    → blk.has_parity ≡ true
    → blk.recovered ≡ false
    → (blk.k == length blk.received + 1) ≡ true
    → try_recover d id ≡ (
      record d { blocks = del id d.blocks },
      some (xor_all (xor_into [] blk.parity) blk.received, first_missing blk.received blk.k 0),
    )
unfolding try_recover
recovers d id blk e parity_there open_block count =
    rw (try_recover, e, parity_there, open_block, count)

-- A block with its parity and all bodies but one gives back that one with its index, equal to it in
-- every byte, beyond its end zeros, in whatever order the others arrived; the block is then deleted.
pub try_recover-missing :
    (d : FecDecoder) (id : ℕ) (blk : FecBlock) (before after : List Bytes) (b : Bytes)
    → get id d.blocks ≡ some blk
    → blk.has_parity ≡ true
    → blk.recovered ≡ false
    → blk.k ≡ length blk.received + 1
    → blk.parity ≡ (add_all (new_fec_encoder blk.k) (before ++ b ∷ after)).parity
    → Permᴰ (bodies blk.received) (before ++ after)
    → get (length before) blk.received ≡ none
    → length before < blk.k
    → ((j : ℕ) → j < length before → get j blk.received ≢ none)
    → (body : Bytes) × (try_recover d id
        ≡ (record d { blocks = del id d.blocks }, some (body, length before)))
      × ((i : ℕ) → byte_at i body ≡ byte_at i b)
try_recover-missing d id blk before after b e parity_there open_block count parity perm gap range
      present =
    (
      xor_all (xor_into [] blk.parity) blk.received,
      recovers d id blk e parity_there open_block (ground arith)
          ∙ ap
              (λ m. (
                record d { blocks = del id d.blocks },
                some (xor_all (xor_into [] blk.parity) blk.received, m),
              ))
              (first_missing_lem blk.received (length before) blk.k 0 gap (omega arith)
                (omega arith) (λ j _ below. present j below)),
      λ i.
          ap (λ q. byte_at i (xor_all (xor_into [] q) blk.received)) parity
          ∙ recovered_byte blk.k before after b blk.received i perm,
    )
