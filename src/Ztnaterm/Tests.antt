-- ===== src/Ztnaterm/Tests.antt =====
-- Two tenants with one network each.
use sase.Prelude.{◌≡◌, false, [], ◌∷◌, some, none, refl}
use sase.Prelude.Bytes.{bytes}
use sase.Ztnaterm
use sase.Ztnaterm.{
  AppRule, AppResolver, new_app_resolver, append_rule, resolve_rule, hits, add_spec, parse_port,
}

abbrev wiki_rule : AppRule
wiki_rule = record {
  cidr = record { ip = 10 ∷ 99 ∷ 0 ∷ 0 ∷ []; mask = 255 ∷ 255 ∷ 0 ∷ 0 ∷ [] };
  dst_port = 80;
  app_key = bytes "wiki";
  connector = false;
}

port_in_range : parse_port (bytes "8080") ≡ some 8080
unfolding parse_port Ztnaterm.atoi_positive Ztnaterm.digits_value
port_in_range = refl

port_too_large : parse_port (bytes "65536") ≡ none
unfolding parse_port Ztnaterm.atoi_positive Ztnaterm.digits_value
port_too_large = refl
