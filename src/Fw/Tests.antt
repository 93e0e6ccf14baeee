-- ===== src/Fw/Tests.antt =====
-- A firewall with two rules, over networks that are not parsed.
use sase.Prelude.{◌≡◌, refl, true, [], ◌∷◌, Option, none, All, Any}
use sase.Prelude.Bytes.{Bytes, bytes, beq}
use sase.Prelude.Int.{pos}
use sase.Prelude.Dict.{get, put, bytes_key}
use sase.Prelude.Sort.{stable_sort, insert}
use sase.Net.{IpNet}
use sase.Fw
use sase.Fw.{Rule, Packet, action_allow}
use sase.Fw.FirstMatch.{matches}
use sase.Fw.Store.{new_fw_store, set_rules, allow, by_priority, IsLeast, allow→least}

abbrev no_networks : Bytes → Option IpNet
no_networks s = none

abbrev deny_all : Rule
deny_all = record {
  id = bytes "r1";
  priority = pos 20;
  action = bytes "deny";
  protocol = bytes "any";
  src_cidr = [];
  dst_cidr = [];
  dst_port_min = 0;
  dst_port_max = 0;
}

abbrev allow_https : Rule
allow_https = record {
  id = bytes "r2";
  priority = pos 10;
  action = bytes "allow";
  protocol = bytes "tcp";
  src_cidr = [];
  dst_cidr = [];
  dst_port_min = 443;
  dst_port_max = 443;
}

abbrev https_packet : Packet
https_packet = record {
  src_ip = 10 ∷ 0 ∷ 0 ∷ 1 ∷ [];
  dst_ip = 10 ∷ 0 ∷ 0 ∷ 2 ∷ [];
  proto = 6;
  dst_port = 443;
}

passes :
    allow
      (set_rules no_networks new_fw_store (bytes "acme") (deny_all ∷ allow_https ∷ []))
      (bytes "acme")
      https_packet
    ≡ true
unfolding allow set_rules new_fw_store get put beq stable_sort insert by_priority Fw.compile
    Fw.compile_rule Fw.evaluate_compiled Fw.matches_compiled Fw.proto_match Fw.port_match Fw.decided
passes = refl

allow→least_example :
    (r : Rule) × Any (λ x. x ≡ r) (deny_all ∷ allow_https ∷ [])
    × (matches no_networks r https_packet ≡ true)
    × (r.action ≡ action_allow)
    × All (IsLeast no_networks https_packet r) (deny_all ∷ allow_https ∷ [])
allow→least_example =
    allow→least no_networks new_fw_store (bytes "acme") (deny_all ∷ allow_https ∷ []) https_packet
      passes
