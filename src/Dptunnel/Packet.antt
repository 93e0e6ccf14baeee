-- ===== src/Dptunnel/Packet.antt =====
-- The five-tuple of an inner packet: parse5Tuple of internal/dptunnel/router.go, and the copy of it
-- in internal/pop/ztnaterm/parse.go.
use sase.Prelude.{
  ℕ, ◌+◌, ◌*◌, ◌/◌, ◌%◌, ◌≡◌, arith, ◌&&◌, ◌||◌, Option, none, some, length, take, drop, get_or,
  ◌==◌, ltb, leb, if◌then◌else◌,
}
use sase.Prelude.Bytes.{Bytes}

pub record Packet5Tuple : Type 0 where
  pub src_ip : Bytes
  pub dst_ip : Bytes
  pub proto : ℕ  -- uint8
  pub src_port : ℕ  -- uint16
  pub dst_port : ℕ  -- uint16

-- pkt[from:from+n]
abbrev pub bytes_at : Bytes → ℕ → ℕ → Bytes
bytes_at pkt from n = take n (drop from pkt)

-- uint16(pkt[i])<<8 | uint16(pkt[i+1])
abbrev pub uint16_at : Bytes → ℕ → ℕ
uint16_at pkt i = get_or pkt i 0 * 256 + get_or pkt (i + 1) 0

-- The ports, where the protocol has them and the packet reaches that far.
unfoldable pub with_ports : Bytes → ℕ → ℕ → Bytes → Bytes → Packet5Tuple
with_ports pkt proto l4off src dst =
    let ports = (proto == 6 || proto == 17) && leb (l4off + 4) (length pkt) in
    record {
      src_ip = src;
      dst_ip = dst;
      proto = proto;
      src_port = if ports then uint16_at pkt l4off else 0;
      dst_port = if ports then uint16_at pkt (l4off + 2) else 0;
    }

-- pkt[0] >> 4 and int(pkt[0]&0x0f) * 4
abbrev pub ip_version : Bytes → ℕ
ip_version pkt = get_or pkt 0 0 / 16

abbrev pub ihl_bytes : Bytes → ℕ
ihl_bytes pkt = get_or pkt 0 0 % 16 * 4

abbrev pub tuple_v4 : Bytes → Packet5Tuple
tuple_v4 pkt =
    with_ports pkt (get_or pkt 9 0) (ihl_bytes pkt) (bytes_at pkt 12 4) (bytes_at pkt 16 4)

abbrev pub tuple_v6 : Bytes → Packet5Tuple
tuple_v6 pkt = with_ports pkt (get_or pkt 6 0) 40 (bytes_at pkt 8 16) (bytes_at pkt 24 16)

unfoldable pub parse_5tuple : Bytes → Option Packet5Tuple
parse_5tuple pkt =
    if ltb (length pkt) 1
    then none
    else if ip_version pkt == 4
    then (if ltb (length pkt) 20 then none else some (tuple_v4 pkt))
    else if ip_version pkt == 6
    then (if ltb (length pkt) 40 then none else some (tuple_v6 pkt))
    else none

-- The terminator's copy, which refuses a header length below 20 as well.
unfoldable pub parse_5tuple_ztna : Bytes → Option Packet5Tuple
parse_5tuple_ztna pkt =
    if ltb (length pkt) 1
    then none
    else if ip_version pkt == 4
    then (if ltb (length pkt) 20
        then none
        else if ltb (ihl_bytes pkt) 20
        then none
        else some (tuple_v4 pkt))
    else if ip_version pkt == 6
    then (if ltb (length pkt) 40 then none else some (tuple_v6 pkt))
    else none

-- The two parsers agree on every packet but those of IPv4 whose header length is below 20, which
-- the terminator refuses.
pub parse_5tuple-agree :
    (pkt : Bytes)
    → parse_5tuple_ztna pkt
      ≡ (if ip_version pkt == 4 && ltb (ihl_bytes pkt) 20 then none else parse_5tuple pkt)
unfolding parse_5tuple parse_5tuple_ztna
parse_5tuple-agree pkt = ground arith
