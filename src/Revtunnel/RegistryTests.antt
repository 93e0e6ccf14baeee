-- ===== src/Revtunnel/RegistryTests.antt =====
-- A connector of one tenant on concrete events.
use sase.Prelude.{◌≡◌, refl, arith, true, List, All, [], ◌∷◌, some}
use sase.Prelude.Int.{pos}
use sase.Prelude.Bytes.{Bytes, bytes, beq}
use sase.Prelude.Dict.{get, put, nat_key, bytes_key}
use sase.Prelude.Result.{Result, ok}
use sase.Revtunnel.Wire.{Conn}
use sase.Revtunnel.Registry
use sase.Revtunnel.Registry.{
  Hello, mode_http, Request, Response, TunnelError, no_connector, Connection, tls, Registry,
  new_registry, open_tenant_stream, round_trip, is_json_space, trim_leading_json_space,
}
use sase.Revtunnel.Tenants.{Slashless}
use sase.Revtunnel.Owners.{Event, connected, run, step, FromOwn, IsPlain, run-FromOwn}

abbrev test_wire : Conn
test_wire = record { sent = []; outcomes = []; shut = true }

abbrev test_connection : Connection
test_connection = record {
  number = 7;
  peer = tls (record { organization = bytes "t1" ∷ [] } ∷ []);
  wire = test_wire;
}

abbrev hello_of : Bytes → Hello
hello_of tenant = record { tenant = tenant; app = bytes "a"; mode = mode_http }

abbrev test_request : Request
test_request = record {
  id = 0;
  method = bytes "GET";
  path = bytes "/";
  header = [];
  header_full = [];
  body = [];
}

abbrev test_response : Response
test_response = record {
  id = 1;
  status = pos 200;
  body = [];
  header = [];
  body_bytes = [];
  error = [];
}

abbrev test_exchange : Connection → Request → Result TunnelError Response
test_exchange c req = ok test_response

abbrev test_events : List Event
test_events =
    connected test_connection (some (hello_of (bytes "t2")))
    ∷ connected test_connection (some (hello_of (bytes "t1")))
    ∷ []

trimmed : trim_leading_json_space (10 ∷ 32 ∷ 1 ∷ 10 ∷ []) ≡ 1 ∷ 10 ∷ []
unfolding trim_leading_json_space is_json_space
trimmed = refl

own_answers :
    (round_trip test_exchange
      (bytes "t1")
      (bytes "a")
      test_request
      (run test_exchange test_events (new_registry true))).0
    ≡ ok (test_connection, test_response)
unfolding run step new_registry round_trip Registry.round_trip_at Registry.answered
    Registry.register Registry.register_http Registry.close_old Registry.close_connection
    Registry.may_register Registry.peer_cert_tenant Registry.tenant_from_cert Registry.key
    Registry.next_id_of get put beq
own_answers = refl

t1_plain : Slashless (bytes "t1")
t1_plain = (λ e. ground arith, (λ e. ground arith, tt))

t2_and_t1 : All IsPlain test_events
t2_and_t1 = ((λ e. ground arith, (λ e. ground arith, tt)), (t1_plain, tt))

run-FromOwn_example :
    FromOwn true
      (bytes "t1")
      (open_tenant_stream
        (bytes "t1")
        (bytes "a")
        (bytes "h:1")
        (run test_exchange test_events (new_registry true))).0
    × FromOwn true
        (bytes "t1")
        (round_trip test_exchange
          (bytes "t1")
          (bytes "a")
          test_request
          (run test_exchange test_events (new_registry true))).0
run-FromOwn_example =
    run-FromOwn test_exchange true test_events (bytes "t1") (bytes "a") (bytes "h:1") test_request
      t2_and_t1 t1_plain
