-- ===== src/Dptunnel/Fec/Tests.antt =====
-- A block of three bodies of different lengths, of which the second is lost.
use mathlib.Core.List.{Permᴰ}
use sase.Prelude.{ℕ, ◌≡◌, ◌≢◌, ◌<◌, refl, arith, true, false, [], ◌∷◌, ◌++◌, some, none, suc, zero}
use sase.Prelude.Bytes.{Bytes}
use sase.Prelude.Dict.{get, del, nat_key}
use sase.Dptunnel.Fec.{FecDecoder, FecBlock, new_fec_encoder, try_recover}
use sase.Dptunnel.Fec.Recover.{add_all, byte_at, bodies, try_recover-missing}

abbrev lost : Bytes
lost = 7 ∷ 8 ∷ 9 ∷ []

abbrev partial_block : FecBlock
partial_block = record {
  k = 3;
  received = (2, 5 ∷ []) ∷ (0, 1 ∷ 2 ∷ []) ∷ [];
  parity = (add_all (new_fec_encoder 3) (((1 ∷ 2 ∷ []) ∷ []) ++ lost ∷ (5 ∷ []) ∷ [])).parity;
  has_parity = true;
  recovered = false;
}

abbrev decoder : FecDecoder
decoder = record { blocks = (4, partial_block) ∷ []; highest = 4; seen = true }

block_kept : get 4 decoder.blocks ≡ some partial_block
unfolding get
block_kept = refl

gap_at_one : get 1 partial_block.received ≡ none
unfolding get
gap_at_one = refl

first_there : (j : ℕ) → j < 1 → get j partial_block.received ≢ none
unfolding get
first_there zero h e = cc
first_there (suc j) h e = absurd (omega arith)

swapped : Permᴰ (bodies partial_block.received) ((1 ∷ 2 ∷ []) ∷ (5 ∷ []) ∷ [])
unfolding bodies
swapped = Permᴰ.swap refl refl

try_recover-missing_example :
    (body : Bytes) × (try_recover decoder 4
      ≡ (record decoder { blocks = del 4 decoder.blocks }, some (body, 1)))
    × ((i : ℕ) → byte_at i body ≡ byte_at i lost)
try_recover-missing_example =
    try_recover-missing decoder 4 partial_block ((1 ∷ 2 ∷ []) ∷ []) ((5 ∷ []) ∷ []) lost block_kept
      refl refl refl refl swapped gap_at_one (omega arith) first_there
