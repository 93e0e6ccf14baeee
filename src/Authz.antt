-- ===== src/Authz.antt =====
-- internal/authz/authz.go: who may call the administration interface. The verifier of tokens
-- (cred.Verifier, an Ed25519 check) and the check that an administrator is still active (a query)
-- are parameters; a request is the fields that the guard reads, and the context that it adds to
-- is the principal handed on.
pub mod Scope
pub mod Gate
mod Tests
use sase.Prelude.{
  Bool, true, false, not, ◌&&◌, ◌||◌, List, [], ◌∷◌, Option, none, some, if◌then◌else◌, is_empty,
  drop, length, ℕ, ◌==◌,
}
use sase.Prelude.Bytes.{Bytes, bytes, beq, has_prefix, trim_prefix}
use sase.Prelude.Result.{Result, ok, err}

abbrev pub role_platform_admin : Bytes
role_platform_admin = bytes "platform_admin"

abbrev pub role_tenant_admin : Bytes
role_tenant_admin = bytes "tenant_admin"

abbrev pub role_auditor : Bytes
role_auditor = bytes "auditor"

pub record Principal : Type 0 where
  pub subject : Bytes
  pub role : Bytes
  pub tenant_id : Bytes

-- The fields of cred.Claims that the guard reads.
pub record Claims : Type 0 where
  pub subject : Bytes
  pub role : Bytes
  pub tenant_id : Bytes

-- A request: `authorization` is empty without the header, `cookie` is the value of sase_session.
pub record Request : Type 0 where
  pub method : Bytes
  pub path : Bytes
  pub authorization : Bytes
  pub cookie : Option Bytes

pub data AuthError : Type 0 where
  no_token bad_token no_admin_role : AuthError

unfoldable pub valid_admin_role : Bytes → Bool
valid_admin_role role =
    beq role role_platform_admin || beq role role_tenant_admin || beq role role_auditor

unfoldable pub scope_valid : Bytes → Bytes → Bool
scope_valid role tenant_id =
    if beq role role_platform_admin then is_empty tenant_id else not (is_empty tenant_id)

unfoldable pub cookie_token : Option Bytes → Result AuthError Bytes
cookie_token none = err no_token
cookie_token (some v) = if not (is_empty v) then ok v else err no_token

unfoldable pub extract_token : Request → Result AuthError Bytes
extract_token r =
    if has_prefix r.authorization (bytes "Bearer ")
    then ok (trim_prefix r.authorization (bytes "Bearer "))
    else cookie_token r.cookie

-- strings.SplitN(s, "/", 2): the first part, and the second where there is a slash.
unfoldable pub split_slash : Bytes → Bytes × Option Bytes
split_slash [] = ([], none)
split_slash (c ∷ s) =
    let (first, rest) = split_slash s in if c == 47 then ([], some s) else (c ∷ first, rest)

-- len(parts) == 1
abbrev pub is_last : Option Bytes → Bool
is_last none = true
is_last (some rest) = false

-- Below tenants/: the tenant itself, or something of it.
unfoldable pub authorize_tenant : Principal → Bool → Bytes × Option Bytes → Bool
authorize_tenant p write (tid, rest) =
    if is_empty tid
    then false
    else if is_last rest && write
    then beq p.role role_platform_admin
    else if beq p.role role_auditor && write
    then false
    else if beq p.role role_platform_admin
    then true
    else beq p.tenant_id tid

unfoldable pub authorize : Principal → Bytes → Bytes → Bool
unfolding authorize_tenant
authorize p method path =
    let rest = trim_prefix path (bytes "/api/v1/") in
    let write = not (beq method (bytes "GET")) in
    if beq rest (bytes "tenants")
    then beq p.role role_platform_admin
    else if has_prefix rest (bytes "tenants/")
    then authorize_tenant p write (split_slash (drop 8 rest))
    else beq p.role role_platform_admin

-- The five exemptions at the head of Middleware.
unfoldable pub is_public : Bytes → Bytes → Bool
is_public method path =
    (beq method (bytes "GET") && beq path (bytes "/api/v1/trust/pubkey"))
    || (beq method (bytes "POST") && beq path (bytes "/api/v1/enroll"))
    || (beq method (bytes "POST") && beq path (bytes "/api/v1/agent/enroll"))
    || (beq method (bytes "GET")
        && (beq path (bytes "/api/v1/idp/login") || beq path (bytes "/api/v1/idp/callback")))
    || (beq method (bytes "POST")
        && (beq path (bytes "/api/v1/login") || beq path (bytes "/api/v1/logout")))

-- What Middleware does with a request: the handler, with the principal where there is one, or a status.
pub data Outcome : Type 0 where
  served : Option Principal → Outcome
  refused : ℕ → Outcome

-- The answer of AdminActiveChecker.
pub data Activity : Type 0 where
  active inactive unknown : Activity

-- The per-request check of a platform administrator; `none` is a guard without a checker.
unfoldable pub revocation : Option (Bytes → Activity) → Principal → Option ℕ
revocation none p = none
revocation (some check) p =
    let answer = check p.subject in
    if beq p.role role_platform_admin
    then elim answer [ active ↦ none | inactive ↦ some 401 | unknown ↦ some 503 ]
    else none

unfoldable pub admit : Option (Bytes → Activity) → Request → Principal → Outcome
unfolding revocation
admit checker r p = elim (revocation checker p) [
  | some status ↦ refused status
  | none ↦ if not (authorize p r.method r.path) then refused 403 else served (some p)
]

module _ (verify : Bytes → Option Claims) where
  -- VerifyAdminToken
  unfoldable pub verify_admin_token : Bytes → Result AuthError Principal
  verify_admin_token token = elim (verify token) [
    | none ↦ err bad_token
    | some c ↦
        if not (valid_admin_role c.role)
        then err no_admin_role
        else ok (record { subject = c.subject; role = c.role; tenant_id = c.tenant_id })
  ]

  -- The same checks on the token of a request.
  unfoldable pub authenticate : Request → Result AuthError Principal
  unfolding verify_admin_token
  authenticate r = elim (extract_token r) [ err e ↦ err e | ok token ↦ verify_admin_token token ]

  unfoldable pub guarded : Option (Bytes → Activity) → Request → Outcome
  guarded checker r = elim (authenticate r) [ err e ↦ refused 401 | ok p ↦ admit checker r p ]

  unfoldable pub middleware : Option (Bytes → Activity) → Request → Outcome
  middleware checker r =
      let protected_part = guarded checker r in
      if is_public r.method r.path then served none else protected_part
