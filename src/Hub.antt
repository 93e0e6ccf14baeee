-- ===== src/Hub.antt =====
-- internal/control/hub.go: the agents connected to the control plane and the commands pushed to them.
-- The checking of a hello's token is a parameter; the mutex makes each call one step, and the write
-- loop takes one command from the front of an agent's channel. A connection is named by a number,
-- which is new for each call of Channel.
pub mod Delivery
mod Tests
use sase.Prelude.{
  ℕ, Bool, true, false, not, List, [], ◌∷◌, ◌++◌, Option, none, some, length, ltb, if◌then◌else◌,
  is_empty,
}
use sase.Prelude.Bytes.{Bytes, bytes, beq}
use sase.Prelude.Dict.{Dict, get, put, del, nat_key, bytes_key}
use sase.Prelude.Result.{Result, ok, err}

pub record Command : Type 0 where
  pub kind : Bytes
  pub jti : Bytes
  pub reason : Bytes

pub record AgentConn : Type 0 where
  pub tenant_id : Bytes
  pub subject : Bytes
  pub jti : Bytes
  pub send : List Command

abbrev pub send_buffer : ℕ
send_buffer = 8

-- `reports` is what the posture handler was called with, where one is set.
pub record Hub : Type 0 where
  pub conns : Dict Bytes (Dict ℕ AgentConn)
  pub has_on_posture : Bool
  pub reports : List (Bytes × Bytes × Bytes × Bytes)

unfoldable pub new_hub : Hub
new_hub = record { conns = []; has_on_posture = false; reports = [] }

unfoldable pub set_posture_handler : Bool → Hub → Hub
set_posture_handler present h = record h { has_on_posture = present }

unfoldable pub or_nil : Option (Dict ℕ AgentConn) → Dict ℕ AgentConn
or_nil none = []
or_nil (some set) = set

-- h.conns[tenantID], which is nil for a tenant without agents.
unfoldable pub conns_of : Bytes → Hub → Dict ℕ AgentConn
conns_of tenant_id h = or_nil (get tenant_id h.conns)

unfoldable pub register : ℕ → AgentConn → Hub → Hub
register id ac h = record h {
  conns = put ac.tenant_id (put id ac (conns_of ac.tenant_id h)) h.conns;
}

unfoldable pub unregister_in : ℕ → Bytes → Option (Dict ℕ AgentConn) → Hub → Hub
unregister_in id tenant_id none h = h
unregister_in id tenant_id (some set) h =
    let rest = del id set in
    if is_empty rest
    then record h { conns = del tenant_id h.conns }
    else record h { conns = put tenant_id rest h.conns }

unfoldable pub unregister : ℕ → Bytes → Hub → Hub
unregister id tenant_id h = unregister_in id tenant_id (get tenant_id h.conns) h

-- case ac.send <- cmd, or nothing when the channel is full.
unfoldable pub offer : Command → AgentConn → AgentConn
offer cmd ac =
    if ltb (length ac.send) send_buffer then record ac { send = ac.send ++ (cmd ∷ []) } else ac

unfoldable pub offer_all : Command → Dict ℕ AgentConn → Dict ℕ AgentConn
offer_all cmd [] = []
offer_all cmd ((id, ac) ∷ set) = (id, offer cmd ac) ∷ offer_all cmd set

unfoldable pub broadcast_in : Bytes → Command → Option (Dict ℕ AgentConn) → Hub → Hub
broadcast_in tenant_id cmd none h = h
broadcast_in tenant_id cmd (some set) h = record h {
  conns = put tenant_id (offer_all cmd set) h.conns;
}

unfoldable pub broadcast : Bytes → Command → Hub → Hub
broadcast tenant_id cmd h = broadcast_in tenant_id cmd (get tenant_id h.conns) h

unfoldable pub notify_revoked : Bytes → Bytes → Hub → Hub
notify_revoked tenant_id jti h =
    broadcast tenant_id (record { kind = bytes "revoke"; jti = jti; reason = bytes "revoked" }) h

unfoldable pub push_recheck_posture : Bytes → Hub → Hub
push_recheck_posture tenant_id h =
    broadcast tenant_id (record { kind = bytes "recheck_posture"; jti = []; reason = [] }) h

unfoldable pub conn_count : Bytes → Hub → ℕ
conn_count tenant_id h = length (conns_of tenant_id h)

pub record Claims : Type 0 where
  pub tenant_id : Bytes
  pub subject : Bytes
  pub jti : Bytes

pub record AgentEvent : Type 0 where
  pub kind : Bytes
  pub token : Bytes
  pub posture : Bytes

pub data ChannelError : Type 0 where
  not_hello unauthenticated : ChannelError

unfoldable pub greeted : ℕ → Option Claims → Hub → Result ChannelError AgentConn × Hub
greeted id none h = (err unauthenticated, h)
greeted id (some c) h =
    let ac : AgentConn = record {
      tenant_id = c.tenant_id;
      subject = c.subject;
      jti = c.jti;
      send = [];
    } in
    (ok ac, register id ac h)

-- Channel up to its loops; `verify` is the verifier of credentials at the time of the call.
unfoldable pub channel_open :
    (Bytes → Option Claims) → ℕ → AgentEvent → Hub → Result ChannelError AgentConn × Hub
channel_open verify id first h =
    if not (beq first.kind (bytes "hello"))
    then (err not_hello, h)
    else greeted id (verify first.token) h

-- The read loop of Channel over the events of an agent until it goes.
unfoldable pub channel_read : AgentConn → List AgentEvent → Hub → Hub
channel_read ac [] h = h
channel_read ac (ev ∷ events) h =
    let report : Bytes × Bytes × Bytes × Bytes = (ac.tenant_id, ac.subject, ac.jti, ev.posture) in
    let reported = record h { reports = h.reports ++ (report ∷ []) } in
    let seen =
      if beq ev.kind (bytes "posture") then (if h.has_on_posture then reported else h) else h in
    channel_read ac events seen
