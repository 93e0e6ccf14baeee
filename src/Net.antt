-- ===== src/Net.antt =====
-- What the code uses of Go's package net: addresses as bytes, networks as an address and a mask.
-- A nil slice and an empty one have the same length, so nil is the empty list.
use sase.Prelude.{
  ℕ, ◌+◌, ◌*◌, Bool, true, false, ◌&&◌, Option, none, some, [], ◌∷◌, ◌++◌, length, take, drop,
  replicate, ◌==◌, if◌then◌else◌,
}
use sase.Prelude.Bytes.{Bytes, beq}
use Prim.Native.Nat.{bit_and}

-- net.IPNet
pub record IpNet : Type 0 where
  pub ip : Bytes
  pub mask : Bytes

abbrev pub v4_in_v6_prefix : Bytes
v4_in_v6_prefix = replicate 10 0 ++ 255 ∷ 255 ∷ []

-- IP.To4: nil unless the address is an IPv4 address, in 4 or in 16 bytes.
unfoldable pub to4 : Bytes → Option Bytes
unfolding beq
to4 ip =
    if length ip == 4
    then some ip
    else if length ip == 16 && beq (take 12 ip) v4_in_v6_prefix
    then some (drop 12 ip)
    else none

-- IP.To16
unfoldable pub to16 : Bytes → Bytes
to16 ip = if length ip == 4 then v4_in_v6_prefix ++ ip else if length ip == 16 then ip else []

-- The loop of IPNet.Contains: every byte agrees under the mask.
unfoldable pub masked_eq : Bytes → Bytes → Bytes → Bool
masked_eq [] m ip = true
masked_eq (n ∷ ns) (b ∷ bs) (i ∷ is) = bit_and n b == bit_and i b && masked_eq ns bs is
masked_eq (n ∷ ns) _ _ = false

-- networkNumberAndMask: the address in its short form, and the mask cut to its length.
unfoldable pub number_and_mask : IpNet → Option (Bytes × Bytes)
unfolding to4
number_and_mask n = elim (to4 n.ip) [
  | some ip ↦
      if length n.mask == 4
      then some (ip, n.mask)
      else if length n.mask == 16
      then some (ip, drop 12 n.mask)
      else none
  | none ↦ if length n.ip == 16 && length n.mask == 16 then some (n.ip, n.mask) else none
]

abbrev short_form : Bytes → Option Bytes → Bytes
short_form ip none = ip
short_form ip (some ip4) = ip4

-- IPNet.Contains
unfoldable pub net_contains : IpNet → Bytes → Bool
unfolding number_and_mask masked_eq to4
net_contains n ip =
    let x = short_form ip (to4 ip) in
    elim (number_and_mask n) [
      | none ↦ length x == 0
      | some (nn, m) ↦ length x == length nn && masked_eq nn m x
    ]

-- The bits of a mask byte other than 0xff: ones and then zeros, or none.
abbrev pub byte_ones : ℕ → Option ℕ
byte_ones b =
    if b == 0
    then some 0
    else if b == 128
    then some 1
    else if b == 192
    then some 2
    else if b == 224
    then some 3
    else if b == 240
    then some 4
    else if b == 248
    then some 5
    else if b == 252
    then some 6
    else if b == 254
    then some 7
    else none

abbrev all_zero : Bytes → Bool
all_zero [] = true
all_zero (b ∷ m) = b == 0 && all_zero m

abbrev eight_more : Option ℕ → Option ℕ
eight_more none = none
eight_more (some n) = some (8 + n)

-- simpleMaskLength: the ones at the head of a mask, where nothing else follows them.
unfoldable pub mask_ones : Bytes → Option ℕ
mask_ones [] = some 0
mask_ones (b ∷ m) =
    let rest = eight_more (mask_ones m) in
    if b == 255 then rest else if all_zero m then byte_ones b else none

-- IPMask.Size: the ones and the length of the mask; 0 and 0 where it is not ones and then zeros.
unfoldable pub mask_size : Bytes → ℕ × ℕ
unfolding mask_ones
mask_size m = elim (mask_ones m) [ none ↦ (0, 0) | some n ↦ (n, length m * 8) ]
