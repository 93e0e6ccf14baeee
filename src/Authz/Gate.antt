-- ===== src/Authz/Gate.antt =====
-- Middleware as a gate: what a served request has shown.
use mathlib.Core.Path.{subst}
use sase.Prelude.{
  ℕ, ◌↔◌, ◌≡◌, sym, ◌∙◌, ap, inl, inr, arith, true, Option, some, none, Option-cases,
}
use sase.Prelude.Bytes.{Bytes, beq_iff}
use sase.Prelude.Result.{ok, err, Result-cases, ok-not-err}
use sase.Authz.{
  Principal, Claims, Request, Activity, active, bad_token, role_platform_admin, valid_admin_role,
  extract_token, verify_admin_token, authenticate, revocation, admit, guarded, middleware,
  is_public, authorize, served, refused,
}

unverified :
    (verify : Bytes → Option Claims) (token : Bytes)
    → verify token ≡ none
    → verify_admin_token verify token ≡ err bad_token
unfolding verify_admin_token
unverified verify token e = rw (e, verify_admin_token)

not_served : (status : ℕ) (p : Principal) → ¬ (refused status ≡ served (some p))
not_served status p e = cc

module _ (verify : Bytes → Option Claims) (checker : Option (Bytes → Activity)) where
  -- What a principal has shown: a token of the request that verifies, to an administrator's role,
  -- still active where that is checked, and allowed by authorize.
  pub record Entitled (r : Request) (p : Principal) : Type 0 where
    pub token : Bytes
    pub claims : Claims
    pub carried : extract_token r ≡ ok token
    pub verified : verify token ≡ some claims
    pub identity :
        p ≡ record { subject = claims.subject; role = claims.role; tenant_id = claims.tenant_id }
    pub admin : valid_admin_role p.role ≡ true
    pub still_active :
        (check : Bytes → Activity)
        → checker ≡ some check
        → p.role ≡ role_platform_admin
        → check p.subject ≡ active
    pub authorized : authorize p r.method r.path ≡ true

  verified_claims :
      (token : Bytes) (p : Principal) (c : Claims)
      → verify token ≡ some c
      → verify_admin_token verify token ≡ ok p
      → (valid_admin_role p.role ≡ true)
        × (p ≡ record { subject = c.subject; role = c.role; tenant_id = c.tenant_id })
  unfolding verify_admin_token
  verified_claims token p c e h = ground arith

  verified_token :
      (token : Bytes) (p : Principal)
      → verify_admin_token verify token ≡ ok p
      → (c : Claims) × (verify token ≡ some c)
        × (valid_admin_role p.role ≡ true)
        × (p ≡ record { subject = c.subject; role = c.role; tenant_id = c.tenant_id })
  verified_token token p h = elim (Option-cases (verify token)) [
    | inl n ↦
        absurd
          (ok-not-err (verify_admin_token verify token) bad_token h (unverified verify token n))
    | inr (c, e) ↦ let (admin, identity) = verified_claims token p c e h in (c, e, admin, identity)
  ]

  admitted :
      (r : Request) (p q : Principal)
      → admit checker r p ≡ served (some q)
      → (p ≡ q) × (revocation checker p ≡ none) × (authorize p r.method r.path ≡ true)
  unfolding admit
  admitted r p q h = ground arith

  unrevoked :
      (p : Principal) (check : Bytes → Activity)
      → checker ≡ some check
      → revocation checker p ≡ none
      → p.role ≡ role_platform_admin
      → check p.subject ≡ active
  unfolding revocation
  unrevoked p check e h r =
      let k : revocation (some check) p ≡ none = ap (λ x. revocation x p) (sym e) ∙ h in
      ground (arith, beq_iff p.role role_platform_admin)

  admitted_by_guard :
      (r : Request) (p : Principal)
      → middleware verify checker r ≡ served (some p)
      → guarded verify checker r ≡ served (some p)
  unfolding middleware
  admitted_by_guard r p h = ground arith

  authenticated :
      (r : Request) (p : Principal)
      → guarded verify checker r ≡ served (some p)
      → (q : Principal) × (authenticate verify r ≡ ok q) × (admit checker r q ≡ served (some p))
  unfolding guarded
  authenticated r p h = elim (Result-cases (authenticate verify r)) [
    | inl (q, e) ↦ (q, e, rw (e, guarded) at h)
    | inr (x, e) ↦
        let k : refused 401 ≡ served (some p) = rw (e, guarded) at h in absurd (not_served 401 p k)
  ]

  token_of :
      (r : Request) (p : Principal)
      → authenticate verify r ≡ ok p
      → (token : Bytes) × (extract_token r ≡ ok token) × (verify_admin_token verify token ≡ ok p)
  unfolding authenticate
  token_of r p h = elim (Result-cases (extract_token r)) [
    | inl (t, e) ↦ (t, e, rw (e, authenticate) at h)
    | inr (x, e) ↦ absurd (ok-not-err (authenticate verify r) x h (rw (e, authenticate)))
  ]

  entitled :
      (r : Request) (q p : Principal) (token : Bytes)
      → extract_token r ≡ ok token
      → verify_admin_token verify token ≡ ok q
      → admit checker r q ≡ served (some p)
      → Entitled r p
  entitled r q p token t v a =
      let (c, e, admin, identity) = verified_token token q v in
      let (same, unrev, auth) = admitted r q p a in
      subst (Entitled r) same (record {
        token = token;
        claims = c;
        carried = t;
        verified = e;
        identity = identity;
        admin = admin;
        still_active = λ check g role. unrevoked q check g unrev role;
        authorized = auth;
      })

  -- A request is handed on with a principal only when it has shown what entitles that principal.
  pub middleware-Entitled :
      (r : Request) (p : Principal) → middleware verify checker r ≡ served (some p) → Entitled r p
  middleware-Entitled r p h =
      let (q, e, a) = authenticated r p (admitted_by_guard r p h) in
      let (token, t, v) = token_of r q e in entitled r q p token t v a

  never_anonymous : (r : Request) → ¬ (guarded verify checker r ≡ served none)
  unfolding guarded admit
  never_anonymous r h = elim (Result-cases (authenticate verify r)) [
    | inl (q, e) ↦ let k : admit checker r q ≡ served none = rw (e, guarded) at h in ground arith
    | inr (x, e) ↦ let k : refused 401 ≡ served none = rw (e, guarded) at h in cc
  ]

  public_only :
      (r : Request) → middleware verify checker r ≡ served none → is_public r.method r.path ≡ true
  unfolding middleware
  public_only r h = let no = never_anonymous r in ground arith

  -- A request is handed on without a principal exactly when it is one of the public ones.
  pub middleware-public_iff :
      (r : Request)
      → (middleware verify checker r ≡ served none) ↔ (is_public r.method r.path ≡ true)
  unfolding middleware
  middleware-public_iff r = (public_only r, λ e. rw (e, middleware))
