-- ===== src/Hub/Tests.antt =====
-- Two agents of one tenant.
use sase.Prelude.{◌≡◌, true, [], ◌∷◌, if◌then◌else◌}
use sase.Prelude.Bytes.{bytes, beq}
use sase.Prelude.Dict.{get, nat_key, bytes_key}
use sase.Hub.{Command, AgentConn, Hub, conns_of, broadcast}
use sase.Hub.Delivery.{with_command, broadcast-offered}

abbrev test_agent : AgentConn
test_agent = record { tenant_id = bytes "t1"; subject = bytes "u1"; jti = bytes "j1"; send = [] }

abbrev test_hub : Hub
test_hub = record {
  conns = (bytes "t1", (1, test_agent) ∷ (2, test_agent) ∷ []) ∷ [];
  has_on_posture = true;
  reports = [];
}

abbrev test_command : Command
test_command = record { kind = bytes "revoke"; jti = bytes "j1"; reason = bytes "revoked" }

broadcast-offered_example :
    get 2 (conns_of (bytes "t1") (broadcast (bytes "t1") test_command test_hub)) ≡ (
      if beq (bytes "t1") (bytes "t1")
      then with_command test_command (get 2 (conns_of (bytes "t1") test_hub))
      else get 2 (conns_of (bytes "t1") test_hub))
broadcast-offered_example = broadcast-offered (bytes "t1") (bytes "t1") 2 test_command test_hub
