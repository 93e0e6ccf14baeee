-- ===== src/Revtunnel/Registry.antt =====
-- internal/revtunnel/revtunnel.go, the side of the point of presence: the connectors of the tenants,
-- which register under the tenant of their certificates, with tenantFromCert of
-- internal/devpki/csr.go. JSON, TLS and the exchange of a request are parameters; a registration, an
-- opened stream and a round trip are each one step.
use sase.Prelude.{
  ℕ, suc, ◌+◌, ◌%◌, ◌^◌, Bool, true, not, ◌||◌, List, [], ◌∷◌, ◌++◌, Option, none, some, length,
  ◌==◌, if◌then◌else◌, is_empty,
}
use sase.Prelude.Int.{ℤ}
use sase.Prelude.Bytes.{Bytes, bytes, beq}
use sase.Prelude.Dict.{Dict, get, put, del, nat_key, bytes_key}
use sase.Prelude.Result.{Result, ok, err}
use sase.Revtunnel.Wire.{MuxError, mux_closed, Conn}
use sase.Revtunnel.Mux.{
  MuxConn, new_mux_conn, LoopEnd, ended, waiting, no_fuel, open_stream, close_all, read_loop,
}

pub record Hello : Type 0 where
  pub tenant : Bytes
  pub app : Bytes
  pub mode : Bytes

abbrev pub mode_http : Bytes
mode_http = bytes "http"

abbrev pub mode_stream : Bytes
mode_stream = bytes "stream"

pub record Request : Type 0 where
  pub id : ℕ
  pub method : Bytes
  pub path : Bytes
  pub header : Dict Bytes Bytes
  pub header_full : Dict Bytes (List Bytes)
  pub body : Bytes

pub record Response : Type 0 where
  pub id : ℕ
  pub status : ℤ
  pub body : Bytes
  pub header : Dict Bytes (List Bytes)
  pub body_bytes : Bytes
  pub error : Bytes

pub data TunnelError : Type 0 where
  no_connector send_failed receive_failed : TunnelError
  mux_failed : MuxError → TunnelError

-- x509.Certificate, of which the code reads Subject.Organization.
pub record Certificate : Type 0 where
  pub organization : List Bytes

-- The dynamic type of a net.Conn after its handshake.
pub data Peer : Type 0 where
  plain : Peer
  tls : List Certificate → Peer

-- A net.Conn: which one, its peer, and what its writes do.
pub record Connection : Type 0 where
  pub number : ℕ
  pub peer : Peer
  pub wire : Conn

pub record Registry : Type 0 where
  pub routes : Dict Bytes Connection
  pub stream_routes : Dict Bytes Connection
  pub require_cert_tenant : Bool
  pub next_ids : Dict ℕ ℕ
  pub muxes : Dict ℕ MuxConn
  pub closed : List ℕ

unfoldable pub new_registry : Bool → Registry
new_registry require = record {
  routes = [];
  stream_routes = [];
  require_cert_tenant = require;
  next_ids = [];
  muxes = [];
  closed = [];
}

abbrev pub slash : ℕ
slash = 47

unfoldable pub key : Bytes → Bytes → Bytes
key tenant app = tenant ++ (slash ∷ app)

-- A space, a tab, a carriage return or a newline.
unfoldable pub is_json_space : ℕ → Bool
is_json_space x = (x == 32) || ((x == 9) || ((x == 13) || (x == 10)))

unfoldable pub trim_leading_json_space : Bytes → Bytes
trim_leading_json_space [] = []
trim_leading_json_space (x ∷ b) =
    let rest = trim_leading_json_space b in if is_json_space x then rest else x ∷ b

unfoldable pub tenant_from_cert : Certificate → Option Bytes
tenant_from_cert cert = elim cert.organization [
  | [] ↦ none
  | o ∷ os ↦ if is_empty o then none else some o
]

unfoldable pub peer_cert_tenant : Peer → Option Bytes
peer_cert_tenant plain = none
peer_cert_tenant (tls []) = none
peer_cert_tenant (tls (cert ∷ certs)) = tenant_from_cert cert

unfoldable pub close_connection : Connection → Registry → Registry
close_connection c s = record s { closed = c.number ∷ s.closed }

unfoldable pub close_old : Option Connection → Registry → Registry
close_old none s = s
close_old (some old) s = close_connection old s

-- muxConn.Close on the connection's multiplexer, if it has one.
unfoldable pub close_mux_of : Connection → Option MuxConn → Registry → Registry
close_mux_of c none s = s
close_mux_of c (some m) s = record s { muxes = put c.number (close_all mux_closed m) s.muxes }

unfoldable pub close_mux : Connection → Registry → Registry
close_mux c s = close_mux_of c (get c.number s.muxes) s

unfoldable pub close_old_mux : Option Connection → Registry → Registry
close_old_mux none s = s
close_old_mux (some old) s = close_mux old s

-- Whether the registration goes on, by the tenant of the certificate.
unfoldable pub may_register : Option Bytes → Hello → Bool → Bool
may_register none hello require = not require
may_register (some tenant) hello require = beq tenant hello.tenant

unfoldable pub register_stream : Hello → Connection → Registry → Registry
register_stream hello c s =
    let k = key hello.tenant hello.app in
    let s' = close_old_mux (get k s.stream_routes) s in
    record s' {
      stream_routes = put k c s'.stream_routes;
      muxes = put c.number (new_mux_conn c.wire true) s'.muxes;
    }

unfoldable pub register_http : Hello → Connection → Registry → Registry
register_http hello c s =
    let k = key hello.tenant hello.app in
    let s' = close_old (get k s.routes) s in
    record s' { routes = put k c s'.routes; next_ids = put c.number 0 s'.next_ids }

-- A connection with the Hello that was decoded from it, if it could be.
unfoldable pub register : Connection → Option Hello → Registry → Registry
register c none s = close_connection c s
register c (some hello) s =
    if not (may_register (peer_cert_tenant c.peer) hello s.require_cert_tenant)
    then close_connection c s
    else if beq hello.mode mode_stream
    then register_stream hello c s
    else register_http hello c s

-- The table without the connection, when it stands there under the key.
unfoldable pub without :
    Bytes → Connection → Option Connection → Dict Bytes Connection → Dict Bytes Connection
without k c none table = table
without k c (some found) table = if found.number == c.number then del k table else table

unfoldable pub evict_stream : Bytes → Bytes → Connection → Registry → Registry
evict_stream tenant app c s =
    let k = key tenant app in
    close_mux c (record s { stream_routes = without k c (get k s.stream_routes) s.stream_routes })

unfoldable pub evict : Bytes → Bytes → Connection → Registry → Registry
evict tenant app c s =
    let k = key tenant app in
    close_connection c (record s { routes = without k c (get k s.routes) s.routes })

-- The goroutine of registerStream, over what its decoder had read already and what comes until the
-- connection breaks.
unfoldable pub loop_done : Hello → Connection → LoopEnd × MuxConn → Registry → Registry
loop_done hello c (end, m) s =
    let s' = record s { muxes = put c.number m s.muxes } in
    elim end [ ended ↦ evict_stream hello.tenant hello.app c s' | waiting b ↦ s' | no_fuel ↦ s' ]

unfoldable pub serve_mux : Hello → Connection → Bytes → Option MuxConn → Registry → Registry
serve_mux hello c b none s = s
serve_mux hello c b (some m) s = loop_done hello c (read_loop (suc (length b)) b m) s

unfoldable pub serve_stream : Hello → Connection → Bytes → Bytes → Registry → Registry
serve_stream hello c buffered b s =
    serve_mux hello c (trim_leading_json_space buffered ++ b) (get c.number s.muxes) s

unfoldable pub stream_opened :
    Connection
    → Result MuxError ℕ × MuxConn
    → Registry
    → Result TunnelError (Connection × ℕ) × Registry
stream_opened c (err e, m) s = (err (mux_failed e), record s { muxes = put c.number m s.muxes })
stream_opened c (ok r, m) s = (ok (c, r), record s { muxes = put c.number m s.muxes })

unfoldable pub open_on :
    Connection → Bytes → Option MuxConn → Registry → Result TunnelError (Connection × ℕ) × Registry
open_on c dst none s = (err no_connector, s)
open_on c dst (some m) s = stream_opened c (open_stream dst m) s

unfoldable pub open_at :
    Bytes → Option Connection → Registry → Result TunnelError (Connection × ℕ) × Registry
open_at dst none s = (err no_connector, s)
open_at dst (some c) s = open_on c dst (get c.number s.muxes) s

-- OpenStream, with the connection on which the stream was opened.
unfoldable pub open_tenant_stream :
    Bytes → Bytes → Bytes → Registry → Result TunnelError (Connection × ℕ) × Registry
open_tenant_stream tenant app dst s = open_at dst (get (key tenant app) s.stream_routes) s

unfoldable pub next_id_of : Option ℕ → ℕ
next_id_of none = 1
next_id_of (some n) = (n + 1) % 2 ^ 64

-- enc.Encode and dec.Decode on a connection: a step of theirs that fails is the error's.
module _ (exchange : Connection → Request → Result TunnelError Response) where
  unfoldable pub answered :
      Bytes
      → Bytes
      → Connection
      → Result TunnelError Response
      → Registry
      → Result TunnelError (Connection × Response) × Registry
  answered tenant app c (err e) s = (err e, evict tenant app c s)
  answered tenant app c (ok response) s = (ok (c, response), s)

  unfoldable pub round_trip_at :
      Bytes
      → Bytes
      → Option Connection
      → Request
      → Registry
      → Result TunnelError (Connection × Response) × Registry
  round_trip_at tenant app none req s = (err no_connector, s)
  round_trip_at tenant app (some c) req s =
      let id = next_id_of (get c.number s.next_ids) in
      answered tenant app c (exchange c (record req { id = id }))
        (record s { next_ids = put c.number id s.next_ids })

  -- RoundTrip, with the connection that answered.
  unfoldable pub round_trip :
      Bytes → Bytes → Request → Registry → Result TunnelError (Connection × Response) × Registry
  round_trip tenant app req s = round_trip_at tenant app (get (key tenant app) s.routes) req s
