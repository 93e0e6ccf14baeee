-- ===== src/Dptunnel/Fec.antt =====
-- internal/dptunnel/fec.go: XOR parity over blocks of data bodies. A Go map is an association list:
-- the order in which the code ranges over it does not show, since XOR is commutative and the
-- smallest id is unique. The int `k` is a number here: below 2 it means no FEC, negative or not.
pub mod Recover
mod Tests
use Prim.Native.Nat.{bit_xor}
use sase.Prelude.{
  ℕ, zero, suc, ◌+◌, ◌-◌, ◌%◌, ◌^◌, Bool, true, false, not, ◌&&◌, ◌||◌, [], ◌∷◌, ◌++◌, Option, none,
  some, length, replicate, ◌==◌, ltb, leb, if◌then◌else◌,
}
use sase.Prelude.Bytes.{Bytes}
use sase.Prelude.Dict.{Dict, get, put, del, nat_key}

pub record FecEncoder : Type 0 where
  pub k : ℕ
  pub block_id : ℕ  -- uint32
  pub count : ℕ
  pub parity : Bytes

unfoldable pub new_fec_encoder : ℕ → FecEncoder
new_fec_encoder k = record { k = k; block_id = 0; count = 0; parity = [] }

unfoldable pub enabled : FecEncoder → Bool
enabled e = ltb 1 e.k

unfoldable pub peek : FecEncoder → ℕ × ℕ
peek e = (e.block_id, e.count % 256)

-- The loop `d[i] ^= src[i]`, with len(src) at most len(d).
unfoldable pub xor_loop : Bytes → Bytes → Bytes
xor_loop [] src = []
xor_loop (x ∷ d) [] = x ∷ d
xor_loop (x ∷ d) (y ∷ src) = bit_xor x y ∷ xor_loop d src

unfoldable pub xor_into : Bytes → Bytes → Bytes
unfolding xor_loop
xor_into dst src =
    xor_loop
      (if ltb (length dst) (length src) then dst ++ replicate (length src - length dst) 0 else dst)
      src

-- add: the block id, the index in the block, and whether the block is full.
unfoldable pub add : FecEncoder → Bytes → FecEncoder × ℕ × ℕ × Bool
add e body = (
  record e { parity = xor_into e.parity body; count = e.count + 1 },
  e.block_id,
  e.count % 256,
  leb e.k (e.count + 1),
)

unfoldable pub seal_parity : FecEncoder → FecEncoder × ℕ × Bytes
seal_parity e = (
  record e { parity = []; count = 0; block_id = (e.block_id + 1) % 2 ^ 32 },
  e.block_id,
  e.parity,
)

pub record FecBlock : Type 0 where
  pub k : ℕ  -- uint8
  pub received : Dict ℕ Bytes  -- the field `data`
  pub parity : Bytes
  pub has_parity : Bool
  pub recovered : Bool

abbrev pub fec_window : ℕ
fec_window = 64

abbrev pub fec_max_blocks : ℕ
fec_max_blocks = 256

pub record FecDecoder : Type 0 where
  pub blocks : Dict ℕ FecBlock
  pub highest : ℕ  -- uint32
  pub seen : Bool

unfoldable pub new_fec_decoder : FecDecoder
new_fec_decoder = record { blocks = []; highest = 0; seen = false }

abbrev pub too_old : ℕ → ℕ → Bool
too_old highest id = ltb id highest && ltb fec_window (highest - id)

-- The first loop of evict.
unfoldable pub drop_old : ℕ → Dict ℕ FecBlock → Dict ℕ FecBlock
drop_old highest [] = []
drop_old highest ((id, b) ∷ m) =
    let rest = drop_old highest m in if too_old highest id then rest else (id, b) ∷ rest

-- The smallest id, from the one found so far.
unfoldable pub lowest : ℕ → Dict ℕ FecBlock → ℕ
lowest low [] = low
lowest low ((id, b) ∷ m) = lowest (if ltb id low then id else low) m

-- The second loop of evict. Each round deletes one block, so the number of blocks bounds the rounds.
unfoldable pub drop_excess : ℕ → Dict ℕ FecBlock → Dict ℕ FecBlock
drop_excess zero m = m
drop_excess (suc rounds) [] = []
drop_excess (suc rounds) ((id, b) ∷ m) =
    let rest = drop_excess rounds (del (lowest id m) ((id, b) ∷ m)) in
    if ltb fec_max_blocks (length ((id, b) ∷ m)) then rest else (id, b) ∷ m

unfoldable pub evict : FecDecoder → FecDecoder
unfolding drop_old drop_excess lowest
evict d =
    let kept = drop_old d.highest d.blocks in record d { blocks = drop_excess (length kept) kept }

abbrev empty_block : ℕ → FecBlock
empty_block k = record { k = k; received = []; parity = []; has_parity = false; recovered = false }

-- The block to write to, after it is made if need be; `none` is the nil that refuses the frame.
unfoldable pub block : FecDecoder → ℕ → ℕ → FecDecoder × Option FecBlock
unfolding evict
block d id k = if d.seen && too_old d.highest id then (d, none) else elim (get id d.blocks) [
  | some b ↦ if not (b.k == k) then (d, none) else (d, some b)
  | none ↦
      let raised = not d.seen || ltb d.highest id in
      (
        evict (record d {
          blocks = put id (empty_block k) d.blocks;
          highest = if raised then id else d.highest;
          seen = if raised then true else d.seen;
        }),
        some (empty_block k),
      )
]

-- The first index below `k` that is missing, or 0, from `i` with `left` indices to look at.
unfoldable pub first_missing : Dict ℕ Bytes → ℕ → ℕ → ℕ
first_missing received zero i = 0
first_missing received (suc left) i =
    let rest = first_missing received left (suc i) in
    elim (get i received) [ none ↦ i | some b ↦ rest ]

unfoldable pub xor_all : Bytes → Dict ℕ Bytes → Bytes
xor_all rec [] = rec
xor_all rec ((i, body) ∷ m) = xor_all (xor_into rec body) m

-- The recovered body and its index; the block is deleted with it.
unfoldable pub try_recover : FecDecoder → ℕ → FecDecoder × Option (Bytes × ℕ)
unfolding first_missing xor_all
try_recover d id = elim (get id d.blocks) [
  | none ↦ (d, none)
  | some b ↦
      if not b.has_parity || b.recovered
      then (d, none)
      else if not (b.k == length b.received + 1)
      then (d, none)
      else (
        record d { blocks = del id d.blocks },
        some (xor_all (xor_into [] b.parity) b.received, first_missing b.received b.k 0),
      )
]

-- A write through the block's pointer: the map's entry, if evict has not deleted it.
abbrev write_block : FecDecoder → ℕ → FecBlock → FecDecoder
write_block d id b = record d {
  blocks = elim (get id d.blocks) [ none ↦ d.blocks | some old ↦ put id b d.blocks ];
}

unfoldable pub add_data : FecDecoder → ℕ → ℕ → ℕ → Bytes → FecDecoder × Option (Bytes × ℕ)
unfolding block try_recover
add_data d id k index body =
    let (d', found) = block d id k in
    elim found [
      | none ↦ (d', none)
      | some b ↦
          try_recover (write_block d' id (record b { received = put index body b.received })) id
    ]

unfoldable pub add_parity : FecDecoder → ℕ → ℕ → Bytes → FecDecoder × Option (Bytes × ℕ)
unfolding block try_recover
add_parity d id k parity =
    let (d', found) = block d id k in
    elim found [
      | none ↦ (d', none)
      | some b ↦
          try_recover (write_block d' id (record b { parity = parity; has_parity = true })) id
    ]
