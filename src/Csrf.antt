-- ===== src/Csrf.antt =====
-- internal/csrf/csrf.go: the middleware before the administration interface. What net/http and net/url
-- give of a request is a record; url.Parse and strings.ToLower are parameters, and the random token,
-- with its encoding, is an argument.
pub mod Guard
mod Tests
use sase.Prelude.{
  Bool, true, false, not, ◌&&◌, ◌||◌, List, [], ◌∷◌, ◌++◌, Option, none, some, if◌then◌else◌,
  is_empty,
}
use sase.Prelude.Bytes.{Bytes, bytes, beq, has_prefix}
use sase.Prelude.Result.{Result, ok, err}

-- url.Parse gives scheme and host, and `none` for an error; strings.ToLower.
pub record Lib : Type 0 where
  pub parse_url : Bytes → Option (Bytes × Bytes)
  pub to_lower : Bytes → Bytes

-- A header that is missing is empty, as Header.Get gives it.
pub record Request : Type 0 where
  pub method : Bytes
  pub path : Bytes
  pub host : Bytes
  pub tls : Bool
  pub cookie : Option Bytes
  pub csrf_header : Bytes
  pub origin : Bytes
  pub referer : Bytes
  pub forwarded_proto : Bytes

pub record Config : Type 0 where
  pub allowed_origins : List Bytes
  pub skip : List Bytes
  pub secure_hint : Bool

pub data CsrfError : Type 0 where
  cookie_missing header_missing token_mismatch origin_missing origin_mismatch : CsrfError

-- Handed on, with the token and the Secure mark of a cookie that is set, or refused with 403.
pub data Outcome : Type 0 where
  served : Option (Bytes × Bool) → Outcome
  forbidden : CsrfError → Outcome

unfoldable pub member : Bytes → List Bytes → Bool
member x [] = false
member x (y ∷ ys) = let rest = member x ys in if beq y x then true else rest

unfoldable pub compare_tokens : Bytes → Bytes → Result CsrfError (Unit {0})
compare_tokens cookie header =
    if is_empty cookie
    then err cookie_missing
    else if is_empty header
    then err header_missing
    else if beq cookie header
    then ok tt
    else err token_mismatch

unfoldable pub verify_tokens : Option Bytes → Bytes → Result CsrfError (Unit {0})
verify_tokens none header = err cookie_missing
verify_tokens (some cookie) header = compare_tokens cookie header

unfoldable pub verify_double_submit : Request → Result CsrfError (Unit {0})
verify_double_submit r = verify_tokens r.cookie r.csrf_header

unfoldable pub is_write : Bytes → Bool
is_write method =
    beq method (bytes "POST")
    || (beq method (bytes "PATCH") || (beq method (bytes "PUT") || beq method (bytes "DELETE")))

module _ (lib : Lib) where
  unfoldable pub is_https : Request → Bool
  is_https r = r.tls || has_prefix (lib.to_lower r.forwarded_proto) (bytes "https")

  unfoldable pub request_scheme : Request → Bytes
  request_scheme r = if is_https r then bytes "https" else bytes "http"

  unfoldable pub verify_parsed :
      Request → List Bytes → Option (Bytes × Bytes) → Result CsrfError (Unit {0})
  verify_parsed r allowed none = err origin_mismatch
  verify_parsed r allowed (some (scheme, host)) =
      if is_empty host
      then err origin_mismatch
      else if member (scheme ++ (bytes "://" ++ host)) allowed
      then ok tt
      else if not (is_empty allowed)
      then err origin_mismatch
      else if beq host r.host && beq scheme (request_scheme r)
      then ok tt
      else err origin_mismatch

  unfoldable pub origin_of : Request → Bytes
  origin_of r = if is_empty r.origin then r.referer else r.origin

  unfoldable pub verify_origin : Request → List Bytes → Result CsrfError (Unit {0})
  verify_origin r allowed =
      if is_empty (origin_of r)
      then err origin_missing
      else verify_parsed r allowed (lib.parse_url (origin_of r))

  unfoldable pub should_secure : Request → Bool → Bool
  should_secure r hint = if is_https r then true else hint

  -- The cookie for a request without one, unless the random source fails.
  unfoldable pub issued : Request → Bool → Option Bytes → Option Bytes → Option (Bytes × Bool)
  issued r hint (some cookie) token = none
  issued r hint none none = none
  issued r hint none (some token) = some (token, should_secure r hint)

  unfoldable pub checked : Result CsrfError (Unit {0}) → Result CsrfError (Unit {0}) → Outcome
  checked (err e) origin = forbidden e
  checked (ok u) (err e) = forbidden e
  checked (ok u) (ok v) = served none

  -- The handler that Middleware makes; `token` is what generateToken would give.
  unfoldable pub middleware : Config → Option Bytes → Request → Outcome
  middleware cfg token r =
      if member r.path cfg.skip
      then served none
      else if is_write r.method
      then checked (verify_double_submit r) (verify_origin r cfg.allowed_origins)
      else served (issued r cfg.secure_hint r.cookie token)
