-- ===== src/Cred.antt =====
-- internal/cred/cred.go: the session credentials that the control plane issues and the points of
-- presence check offline. JSON, base64 and the signature schemes are parameters; times are
-- nanoseconds since the epoch.
pub mod Offline
mod Tests
use sase.Prelude.{
  ℕ, ◌+◌, ◌/◌, ◌^◌, Bool, true, false, not, List, [], ◌∷◌, ◌++◌, Option, none, some, if◌then◌else◌,
  leb, ◌==◌,
}
use sase.Prelude.Bytes.{Bytes, bytes}
use sase.Prelude.Int.{ℤ}
use sase.Prelude.Result.{Result, ok, err}

pub record Claims : Type 0 where
  pub jti : Bytes
  pub tenant_id : Bytes
  pub subject : Bytes
  pub groups : List Bytes
  pub posture : Bytes
  pub role : Bytes
  pub risk_score : ℤ
  pub risk_level : Bytes
  pub issued_at : ℕ
  pub expire_at : ℕ

pub data CredError : Type 0 where
  malformed bad_signature expired marshal_failed sign_failed : CredError

-- encoding/json on Claims, and unpadded URL base64.
pub record Codec : Type 0 where
  pub marshal : Claims → Option Bytes
  pub unmarshal : Bytes → Option Claims
  pub b64 : Bytes → Bytes
  pub unb64 : Bytes → Option Bytes

-- A scheme with its key pair: signing may fail, and need not give the same signature twice.
pub record Scheme : Type 0 where
  pub sign : Bytes → Option Bytes
  pub verify : Bytes → Bytes → Bool

-- Time.Unix
unfoldable pub unix : ℕ → ℕ
unix t = t / 10 ^ 9

abbrev pub dot : ℕ
dot = 46

unfoldable pub before_dot : ℕ → Option (Bytes × Bytes) → Option (Bytes × Bytes)
before_dot x none = none
before_dot x (some parts) = some (x ∷ parts.0, parts.1)

-- strings.SplitN(token, ".", 2), when it gives two parts.
unfoldable pub split_dot : Bytes → Option (Bytes × Bytes)
split_dot [] = none
split_dot (x ∷ xs) =
    let rest = before_dot x (split_dot xs) in if x == dot then some ([], xs) else rest

module _ (codec : Codec) (scheme : Scheme) where
  unfoldable pub stamped : Claims → ℕ → ℕ → Claims
  stamped c ttl now = record c { issued_at = unix now; expire_at = unix (now + ttl) }

  unfoldable pub joined : Bytes → Option Bytes → Result CredError Bytes
  joined payload none = err sign_failed
  joined payload (some sig) = ok (codec.b64 payload ++ (dot ∷ codec.b64 sig))

  unfoldable pub signed : Option Bytes → Result CredError Bytes
  signed none = err marshal_failed
  signed (some payload) = joined payload (scheme.sign payload)

  unfoldable pub issue : Claims → ℕ → ℕ → Result CredError Bytes
  issue c ttl now = signed (codec.marshal (stamped c ttl now))

  unfoldable pub in_time : ℕ → Option Claims → Result CredError Claims
  in_time now none = err malformed
  in_time now (some c) = if leb c.expire_at (unix now) then err expired else ok c

  unfoldable pub verify_decoded : ℕ → Option Bytes → Option Bytes → Result CredError Claims
  verify_decoded now none sig = err malformed
  verify_decoded now (some payload) none = err malformed
  verify_decoded now (some payload) (some sig) =
      if scheme.verify payload sig then in_time now (codec.unmarshal payload) else err bad_signature

  unfoldable pub verify_parts : ℕ → Option (Bytes × Bytes) → Result CredError Claims
  verify_parts now none = err malformed
  verify_parts now (some parts) = verify_decoded now (codec.unb64 parts.0) (codec.unb64 parts.1)

  unfoldable pub verify : Bytes → ℕ → Result CredError Claims
  verify token now = verify_parts now (split_dot token)
