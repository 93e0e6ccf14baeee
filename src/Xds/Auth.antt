-- ===== src/Xds/Auth.antt =====
-- internal/xds/subauth.go: a stream's identity, and what it may subscribe to. What the peer's
-- certificate says is an argument: the reading of certificates is a library's.
use sase.Prelude.{Bool, true, false, List, [], ◌∷◌, Option, none, some, if◌then◌else◌, not, ◌&&◌}
use sase.Prelude.Bytes.{Bytes, bytes, beq}
use sase.Prelude.Dict.{Dict, get, bytes_key}

-- A map[string]bool whose values are all true.
abbrev pub Names : Type 0
Names = Dict Bytes (Unit {0})

unfoldable pub is_some {ℓ} : {A : Type ℓ} → Option A → Bool
is_some none = false
is_some (some a) = true

unfoldable pub named : Bytes → Names → Bool
named name set = is_some (get name set)

abbrev pub role_pop : Bytes
role_pop = bytes "pop"

abbrev pub role_device : Bytes
role_device = bytes "device"

pub record StreamAuth : Type 0 where
  pub role : Bytes
  pub cert_tenant : Bytes
  pub has_cert : Bool
  pub tenants : Names
  pub named_types : Names

pub data Reason : Type 0 where
  trusted_pop own_tenant other_tenant strict_refused lax_allowed : Reason

unfoldable pub authorize_subscription : Bytes → Bool → Bytes → Bytes → Bool → Bool × Reason
authorize_subscription role has_cert cert_tenant sub_tenant strict =
    if beq role role_pop
    then (true, trusted_pop)
    else if beq role role_device
    then (if not (beq cert_tenant []) && beq cert_tenant sub_tenant
        then (true, own_tenant)
        else (false, other_tenant))
    else if strict
    then (false, strict_refused)
    else (true, lax_allowed)

-- The leaf certificate of the TLS peer, and the role and the tenant that it carries.
pub record Leaf : Type 0 where
  pub role : Option Bytes
  pub tenant : Option Bytes

pub record Identity : Type 0 where
  pub role : Bytes
  pub cert_tenant : Bytes
  pub has_cert : Bool

unfoldable pub or_empty : Option Bytes → Bytes
or_empty none = []
or_empty (some b) = b

-- The certificates of the peer, if the context has a TLS peer.
unfoldable pub peer_cert_identity : Option (List Leaf) → Identity
peer_cert_identity none = record { role = []; cert_tenant = []; has_cert = false }
peer_cert_identity (some []) = record { role = []; cert_tenant = []; has_cert = false }
peer_cert_identity (some (leaf ∷ rest)) = record {
  role = or_empty leaf.role;
  cert_tenant = or_empty leaf.tenant;
  has_cert = true;
}
