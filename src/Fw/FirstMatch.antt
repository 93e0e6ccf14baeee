-- ===== src/Fw/FirstMatch.antt =====
-- The engine against a direct reading of the rules: fail closed, first match in the list's order.
use sase.Prelude.{
  ◌≡◌, refl, ap, Bool, true, false, ◌&&◌, ◌||◌, Option, none, some, List, [], ◌∷◌, ◌++◌, ◌⊎◌, inl,
  inr, arith, All, Bool-cases, ◌==◌, leb,
}
use sase.Prelude.Bytes.{Bytes, beq, beq_iff}
use sase.Net.{IpNet, net_contains}
use sase.Fw
use sase.Fw.{Rule, Packet}

not-allow-default_deny : ¬ (Fw.default_deny.allow ≡ true)
unfolding Fw.default_deny
not-allow-default_deny e = cc

allow-decided : (cr : Fw.CompiledRule) → (Fw.decided cr).allow ≡ true → cr.action ≡ Fw.action_allow
unfolding Fw.decided
allow-decided cr e = ground (arith, beq_iff cr.action Fw.action_allow)

module _ (parse_cidr : Bytes → Option IpNet) (r : Rule) where
  allows : (Fw.decided (Fw.compile_rule parse_cidr r)).allow ≡ true → r.action ≡ Fw.action_allow
  unfolding Fw.compile_rule
  allows = allow-decided (Fw.compile_rule parse_cidr r)

module _ (parse_cidr : Bytes → Option IpNet) where
  -- A rule's address field: empty, or a legal network that holds the address.
  pub in_cidr : Bytes → Bytes → Bool
  in_cidr cidr ip =
      beq cidr [] || elim (parse_cidr cidr) [ none ↦ false | some n ↦ net_contains n ip ]

  -- A rule's port fields: 0,0 is any; otherwise the packet is TCP or UDP with its port in the range.
  pub in_ports : Rule → Packet → Bool
  in_ports r p =
      (r.dst_port_min == 0 && r.dst_port_max == 0)
      || ((p.proto == Fw.ip_tcp || p.proto == Fw.ip_udp)
          && (leb r.dst_port_min p.dst_port && leb p.dst_port r.dst_port_max))

  -- What a rule says of a packet, read off the rule's text.
  pub matches : Rule → Packet → Bool
  unfolding in_cidr in_ports
  matches r p =
      Fw.proto_match r.protocol p.proto
      && (in_cidr r.src_cidr p.src_ip && (in_cidr r.dst_cidr p.dst_ip && in_ports r p))

  -- Precompiling a rule keeps its meaning, on every packet and for illegal networks too.
  pub matches_compiled-compile_rule :
      (r : Rule) (p : Packet) → Fw.matches_compiled (Fw.compile_rule parse_cidr r) p ≡ matches r p
  unfolding matches Fw.matches_compiled Fw.compile_rule
  matches_compiled-compile_rule r p = ground arith

  abbrev pub Misses : Packet → Rule → Type 0
  Misses p r = matches r p ≡ false

  -- A matching rule decides when no rule before it matches.
  pub evaluate_first :
      (before : List Rule) (r : Rule) (after : List Rule) (p : Packet)
      → All (Misses p) before
      → matches r p ≡ true
      → Fw.evaluate parse_cidr (before ++ r ∷ after) p ≡ Fw.decided (Fw.compile_rule parse_cidr r)
  unfolding Fw.evaluate Fw.evaluate_compiled Fw.compile
  evaluate_first [] r after p h m = rw (matches_compiled-compile_rule r p, m)
  evaluate_first (b ∷ before) r after p h m =
      rw (matches_compiled-compile_rule b p, h.0) (evaluate_first before r after p h.1 m)

  -- With no matching rule the packet is refused.
  pub evaluate_default :
      (rules : List Rule) (p : Packet)
      → All (Misses p) rules
      → Fw.evaluate parse_cidr rules p ≡ Fw.default_deny
  unfolding Fw.evaluate Fw.evaluate_compiled Fw.compile
  evaluate_default [] p h = refl
  evaluate_default (r ∷ rules) p h =
      rw (matches_compiled-compile_rule r p, h.0) (evaluate_default rules p h.1)

  -- The place of the first match, where there is one.
  pub record FirstMatch (rules : List Rule) (p : Packet) (r : Rule) : Type 0 where
    pub before : List Rule
    pub after : List Rule
    pub place : rules ≡ before ++ r ∷ after
    pub missed : All (Misses p) before
    pub hit : matches r p ≡ true

  pub first_match :
      (rules : List Rule) (p : Packet) → All (Misses p) rules ⊎ ((r : Rule) × FirstMatch rules p r)
  first_match [] p = inl tt
  first_match (r ∷ rules) p = elim (Bool-cases (matches r p)) [
    | inl hit ↦ inr (r, record { before = []; after = rules; place = refl; missed = tt; hit = hit })
    | inr miss ↦ elim (first_match rules p) [
      | inl all ↦ inl (miss, all)
      | inr (s, f) ↦ inr (
        s,
        record {
          before = r ∷ f.before;
          after = f.after;
          place = ap (◌∷◌ r) f.place;
          missed = (miss, f.missed);
          hit = f.hit;
        },
      )
    ]
  ]

  -- A packet passes only by the first rule that matches it, and that rule allows.
  pub allow→FirstMatch :
      (rules : List Rule) (p : Packet)
      → (Fw.evaluate parse_cidr rules p).allow ≡ true
      → (r : Rule) × FirstMatch rules p r × (r.action ≡ Fw.action_allow)
  allow→FirstMatch rules p h = elim (first_match rules p) [
    | inl none_hits ↦ absurd (not-allow-default_deny (rw (evaluate_default rules p none_hits) at h))
    | inr (r, f) ↦ (
      r,
      f,
      allows parse_cidr r (rw (f.place, evaluate_first f.before r f.after p f.missed f.hit) at h),
    )
  ]
