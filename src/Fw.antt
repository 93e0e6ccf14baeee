-- ===== src/Fw.antt =====
-- internal/fw/engine.go and internal/pop/fw_store.go: the firewall's rules and their evaluation.
-- net.ParseCIDR is a parameter: the code relies on nothing but its being a function of the text.
pub mod FirstMatch
pub mod Store
mod Tests
use sase.Prelude.{
  ℕ, ◌≡◌, Bool, true, false, not, ◌&&◌, ◌||◌, Option, none, some, List, [], ◌∷◌, ◌++◌, map, length,
  ◌==◌, ltb, if◌then◌else◌,
}
use sase.Prelude.Bytes.{Bytes, bytes, beq}
use sase.Prelude.Int.{ℤ, itoa}
use sase.Net.{IpNet, net_contains}

abbrev pub action_allow : Bytes
action_allow = bytes "allow"

abbrev pub proto_any : Bytes
proto_any = bytes "any"

abbrev pub proto_tcp : Bytes
proto_tcp = bytes "tcp"

abbrev pub proto_udp : Bytes
proto_udp = bytes "udp"

abbrev pub proto_icmp : Bytes
proto_icmp = bytes "icmp"

abbrev pub ip_tcp : ℕ
ip_tcp = 6

abbrev pub ip_udp : ℕ
ip_udp = 17

abbrev pub ip_icmp : ℕ
ip_icmp = 1

pub record Rule : Type 0 where
  pub id : Bytes
  pub priority : ℤ
  pub action : Bytes
  pub protocol : Bytes
  pub src_cidr : Bytes
  pub dst_cidr : Bytes
  pub dst_port_min : ℕ  -- uint16
  pub dst_port_max : ℕ  -- uint16

pub record Packet : Type 0 where
  pub src_ip : Bytes
  pub dst_ip : Bytes
  pub proto : ℕ  -- uint8
  pub dst_port : ℕ  -- uint16

pub record Decision : Type 0 where
  pub allow : Bool
  pub reason : Bytes

-- `none` for a network is the nil pointer.
pub record CompiledRule : Type 0 where
  pub priority : ℤ
  pub action : Bytes
  pub protocol : Bytes
  pub src_net : Option IpNet
  pub dst_net : Option IpNet
  pub src_any : Bool
  pub dst_any : Bool
  pub never_match : Bool
  pub dst_port_min : ℕ
  pub dst_port_max : ℕ

-- The field `rules` of CompiledRuleSet.
abbrev pub CompiledRuleSet : Type 0
CompiledRuleSet = List CompiledRule

unfoldable pub len : CompiledRuleSet → ℕ
len cs = length cs

unfoldable pub proto_match : Bytes → ℕ → Bool
proto_match rule_proto pkt =
    if beq rule_proto [] || beq rule_proto proto_any
    then true
    else if beq rule_proto proto_tcp
    then pkt == ip_tcp
    else if beq rule_proto proto_udp
    then pkt == ip_udp
    else if beq rule_proto proto_icmp
    then pkt == ip_icmp
    else false

-- `net == nil || !net.Contains(ip)`
unfoldable pub outside : Option IpNet → Bytes → Bool
outside none ip = true
outside (some n) ip = not (net_contains n ip)

unfoldable pub port_match : CompiledRule → Packet → Bool
port_match cr p =
    if not (cr.dst_port_min == 0) || not (cr.dst_port_max == 0)
    then if not (p.proto == ip_tcp) && not (p.proto == ip_udp)
      then false
      else not (ltb p.dst_port cr.dst_port_min || ltb cr.dst_port_max p.dst_port)
    else true

unfoldable pub matches_compiled : CompiledRule → Packet → Bool
unfolding outside port_match
matches_compiled cr p =
    if cr.never_match
    then false
    else if not (proto_match cr.protocol p.proto)
    then false
    else if not cr.src_any && outside cr.src_net p.src_ip
    then false
    else if not cr.dst_any && outside cr.dst_net p.dst_ip
    then false
    else port_match cr p

abbrev allow_reason : ℤ → Bytes
allow_reason pri = bytes "allow rule pri=" ++ itoa pri

abbrev deny_reason : ℤ → Bytes
deny_reason pri = bytes "deny rule pri=" ++ itoa pri

-- What EvaluateCompiled returns once a rule has matched.
unfoldable pub decided : CompiledRule → Decision
decided cr =
    if beq cr.action action_allow
    then record { allow = true; reason = allow_reason cr.priority }
    else record { allow = false; reason = deny_reason cr.priority }

unfoldable pub default_deny : Decision
default_deny = record { allow = false; reason = bytes "default-deny" }

unfoldable pub evaluate_compiled : CompiledRuleSet → Packet → Decision
evaluate_compiled [] p = default_deny
evaluate_compiled (cr ∷ rest) p =
    if matches_compiled cr p then decided cr else evaluate_compiled rest p

module _ (parse_cidr : Bytes → Option IpNet) where
  -- isAny, ipnet, never
  unfoldable pub compile_cidr : Bytes → Bool × Option IpNet × Bool
  compile_cidr cidr =
      if beq cidr []
      then (true, none, false)
      else elim (parse_cidr cidr) [ none ↦ (false, none, true) | some n ↦ (false, some n, false) ]

  -- The body of Compile's loop. The destination is compiled only if the source is legal.
  unfoldable pub compile_rule : Rule → CompiledRule
  unfolding compile_cidr
  compile_rule r =
      let (src_any, src_net, src_never) = compile_cidr r.src_cidr in
      let (dst_any, dst_net, dst_never) = compile_cidr r.dst_cidr in
      record {
        priority = r.priority;
        action = r.action;
        protocol = r.protocol;
        src_net = src_net;
        dst_net = if src_never then none else dst_net;
        src_any = src_any;
        dst_any = if src_never then false else dst_any;
        never_match = if src_never then true else dst_never;
        dst_port_min = r.dst_port_min;
        dst_port_max = r.dst_port_max;
      }

  unfoldable pub compile : List Rule → CompiledRuleSet
  compile rules = map compile_rule rules

  unfoldable pub evaluate : List Rule → Packet → Decision
  evaluate rules p = evaluate_compiled (compile rules) p
