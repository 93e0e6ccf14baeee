-- ===== src/Dptunnel/Router/Tests.antt =====
-- A router with two sites of one tenant and one of another, over a cipher that changes nothing.
use sase.Prelude.{◌≡◌, refl, [], ◌∷◌, none, some, All, Any, map}
use sase.Prelude.Bytes.{Bytes, bytes, beq}
use sase.Prelude.Dict.{get, put, del, bytes_key}
use sase.Net
use sase.Net.{IpNet}
use sase.Dptunnel.Lpm
use sase.Dptunnel.Replay
use sase.Dptunnel.Frame
use sase.Dptunnel.Fec
use sase.Dptunnel.Session
use sase.Dptunnel.Packet
use sase.Dptunnel.Packet.{parse_5tuple, parse_5tuple_ztna, parse_5tuple-agree}
use sase.Dptunnel.Session.{Aead, new_session, seal}
use sase.Dptunnel.Router
use sase.Dptunnel.Router.{
  SiteEntry, SiteName, Router, new_router, register, deregister, update_cidrs, sites_of, handle,
  route,
}
use sase.Dptunnel.Router.Routes.{IsDerived, new_router-IsDerived, register-IsDerived}
use sase.Dptunnel.Router.Reach.{InTenant}
use sase.Dptunnel.Router.Tenants.{new_router-InTenant, register-InTenant}
use sase.Dptunnel.Router.Isolation.{handle-isolated}

abbrev plain_aead : Aead
plain_aead = record { seal_text = λ n p a. p; open_text = λ n c a. some c }

abbrev site : Bytes → Bytes → Bytes → Bytes → SiteEntry
site tenant name addr net = record {
  tenant = tenant;
  site = name;
  keys = plain_aead;
  sess = new_session 1 0 1;
  addr = addr;
  cidrs = record { ip = net; mask = 255 ∷ 255 ∷ 255 ∷ 0 ∷ [] } ∷ [];
}

abbrev north : SiteEntry
north = site (bytes "acme") (bytes "north") (bytes "a:1") (10 ∷ 0 ∷ 1 ∷ 0 ∷ [])

abbrev south : SiteEntry
south = site (bytes "acme") (bytes "south") (bytes "a:2") (10 ∷ 0 ∷ 2 ∷ 0 ∷ [])

abbrev foreign : SiteEntry
foreign = site (bytes "globex") (bytes "hq") (bytes "g:1") (10 ∷ 0 ∷ 2 ∷ 0 ∷ [])

abbrev three_sites : Router
three_sites = register (register (register new_router north) foreign) south

three_sites-IsDerived : IsDerived three_sites
three_sites-IsDerived =
    register-IsDerived _ south
      (register-IsDerived _ foreign (register-IsDerived _ north new_router-IsDerived))

three_sites-InTenant : InTenant three_sites
three_sites-InTenant =
    register-InTenant _ south
      (register-InTenant _ foreign (register-InTenant _ north new_router-InTenant))

-- An IPv4 packet from north to south, in the frame that north sends first.
abbrev inner : Bytes
inner = 69 ∷ 0 ∷ 0 ∷ 20 ∷ 0 ∷ 0 ∷ 0 ∷ 0 ∷ 64 ∷ 1 ∷ 0 ∷ 0 ∷ 10 ∷ 0 ∷ 1 ∷ 5 ∷ 10 ∷ 0 ∷ 2 ∷ 9 ∷ []

abbrev datagram : Bytes
datagram = 1 ∷ 0 ∷ 0 ∷ 0 ∷ 0 ∷ 0 ∷ 1 ∷ 0 ∷ 0 ∷ 0 ∷ 0 ∷ 0 ∷ 0 ∷ 0 ∷ 0 ∷ 0 ∷ 0 ∷ 20 ∷ inner

north_known :
    get (bytes "a:1") three_sites.by_src
    ≡ some (record { tenant = bytes "acme"; site = bytes "north" })
unfolding new_router register Router.add_entry Router.remove_locked Router.rebuild_routes
    Router.with_sites sites_of Router.find_site get put del beq
north_known = refl

-- The packet reaches south, and nobody else.
handle_reaches : map (λ o. o.addr) (handle three_sites datagram (bytes "a:1")).1 ≡ bytes "a:2" ∷ []
unfolding new_router register Router.add_entry Router.remove_locked Router.rebuild_routes
    Router.with_sites sites_of Router.find_site get put del beq handle Router.handle_from
    Router.set_session Router.update_site Router.after_open Router.forward_all Router.forward
    Router.forward_tuple Router.forward_to Router.seal_to Router.outbounds route Router.route_in
    Router.build_routes Router.insert_sites Router.insert_cidrs Router.insert_cidr
    Session.open_datagram Session.open_data Session.after_open Session.open_and_accept
    Session.open_plain Session.append_recovered Session.nonce Session.new_session Session.seal
    Session.sealed_payload Session.framed Session.slot Session.add_to_block Frame.parse_frame
    Frame.parse_data_body Frame.marshal Frame.header_bytes Frame.data_body Frame.uint16_at
    Frame.uint32_at Frame.uint64_at Frame.put_uint16 Frame.put_uint32 Frame.put_uint64 Replay.accept
    Replay.empty_window Fec.enabled Fec.new_fec_encoder Fec.new_fec_decoder Lpm.new_trie Lpm.insert
    Lpm.insert_from Lpm.bit_at Lpm.longest_prefix Lpm.walk Net.to4 Net.to16 Net.mask_size
    Net.mask_ones parse_5tuple Packet.with_ports
handle_reaches = refl

handle-isolated_example :
    let (r', out, drops) = handle three_sites datagram (bytes "a:1") in
    All (λ o. Any (λ e. e.addr ≡ o.addr) (sites_of three_sites (bytes "acme"))) out
    × IsDerived r'
    × InTenant r'
handle-isolated_example =
    handle-isolated three_sites datagram (bytes "a:1")
      (record { tenant = bytes "acme"; site = bytes "north" }) three_sites-IsDerived
      three_sites-InTenant north_known

-- A header length of 16, which only one of the parsers refuses.
abbrev short_header : Bytes
short_header =
    68 ∷ 0 ∷ 0 ∷ 20 ∷ 0 ∷ 0 ∷ 0 ∷ 0 ∷ 64 ∷ 1 ∷ 0 ∷ 0 ∷ 10 ∷ 0 ∷ 1 ∷ 5 ∷ 10 ∷ 0 ∷ 2 ∷ 9 ∷ []

parse_5tuple-agree_example : parse_5tuple_ztna short_header ≡ none
parse_5tuple-agree_example = parse_5tuple-agree short_header
