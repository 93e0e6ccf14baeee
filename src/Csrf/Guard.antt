-- ===== src/Csrf/Guard.antt =====
-- Which writing requests the middleware hands on.
use sase.Prelude.{
  ◌≡◌, ◌≢◌, ◌↔◌, ◌⊎◌, refl, ap, arith, true, false, Bool-cases, inl, inr, List, [], ◌∷◌, ◌++◌,
  Option, none, some, Option-cases, Any, is_empty, not_empty, is_empty-false,
}
use mathlib.Core.Option.{some-injective}
use sase.Prelude.Bytes.{Bytes, bytes, beq, beq_iff}
use sase.Prelude.Result.{Result, ok, err}
use sase.Csrf.{
  Lib, Request, Config, CsrfError, origin_missing, origin_mismatch, served, member, compare_tokens,
  verify_tokens, verify_double_submit, is_write, request_scheme, verify_parsed, origin_of,
  verify_origin, checked, middleware,
}

member_iff : (x : Bytes) (ys : List Bytes) → (member x ys ≡ true) ↔ Any (λ y. y ≡ x) ys
unfolding member
member_iff x [] = (λ h. absurd (cc), λ h. elim h [ ])
member_iff x (y ∷ ys) = ground (arith, beq_iff y x, member_iff x ys)

-- The request shows in a header the token that its cookie holds, which is not empty.
pub record ShowsToken (r : Request) : Type 0 where
  pub cookie_set : r.cookie ≡ some r.csrf_header
  pub not_empty : r.csrf_header ≢ []

-- The origin that the request comes from, by its scheme and host, is one of those listed, or the
-- request's own where none is listed.
pub record FromOrigin (lib : Lib) (cfg : Config) (r : Request) : Type 0 where
  pub scheme : Bytes
  pub host : Bytes
  pub parsed : lib.parse_url (origin_of lib r) ≡ some (scheme, host)
  pub named : origin_of lib r ≢ []
  pub has_host : host ≢ []
  pub trusted :
      Any (λ a. a ≡ scheme ++ (bytes "://" ++ host)) cfg.allowed_origins
      ⊎ ((cfg.allowed_origins ≡ []) × (host ≡ r.host) × (scheme ≡ request_scheme lib r))

tokens-ok :
    (o : Option Bytes) (header : Bytes)
    → (verify_tokens o header ≡ ok tt) ↔ ((o ≡ some header) × (header ≢ []))
unfolding verify_tokens compare_tokens
tokens-ok none header = (λ h. absurd (cc), λ h. absurd (cc))
tokens-ok (some []) [] = (λ h. absurd (cc), λ h. absurd (h.1 refl))
tokens-ok (some []) (y ∷ header) = (λ h. absurd (cc), λ h. absurd (cc))
tokens-ok (some (x ∷ cookie)) [] = (λ h. absurd (cc), λ h. absurd (h.1 refl))
tokens-ok (some (x ∷ cookie)) (y ∷ header) = elim (Bool-cases (beq (x ∷ cookie) (y ∷ header))) [
  | inl b ↦
      let same : x ∷ cookie ≡ y ∷ header = (beq_iff (x ∷ cookie) (y ∷ header)).0 b in
      rw b (λ h. (ap some same, λ e. absurd (cc)), λ h. refl)
  | inr b ↦ rw b (
    λ h. absurd (cc),
    λ h. let k = (beq_iff (x ∷ cookie) (y ∷ header)).1 (some-injective _ _ h.0) in absurd (cc),
  )
]

ShowsToken-ok : (r : Request) → (verify_double_submit r ≡ ok tt) ↔ ShowsToken r
unfolding verify_double_submit
ShowsToken-ok r =
    let t = tokens-ok r.cookie r.csrf_header in
    (
      λ h. record { cookie_set = (t.0 h).0; not_empty = (t.0 h).1 },
      λ s. t.1 (s.cookie_set, s.not_empty),
    )

parsed-ok :
    (lib : Lib) (r : Request) (allowed : List Bytes) (scheme host : Bytes)
    → (verify_parsed lib r allowed (some (scheme, host)) ≡ ok tt) ↔ (
        (is_empty host ≡ false)
        × ((member (scheme ++ (bytes "://" ++ host)) allowed ≡ true)
            ⊎ ((is_empty allowed ≡ true)
                × (beq host r.host ≡ true)
                × (beq scheme (request_scheme lib r) ≡ true))))
unfolding verify_parsed
parsed-ok lib r allowed scheme host = ground arith

empty_nil : (xs : List Bytes) → is_empty xs ≡ true → xs ≡ []
empty_nil [] h = refl
empty_nil (x ∷ xs) h = cc

trust :
    (lib : Lib) (cfg : Config) (r : Request) (scheme host : Bytes)
    → ((member (scheme ++ (bytes "://" ++ host)) cfg.allowed_origins ≡ true)
        ⊎ ((is_empty cfg.allowed_origins ≡ true)
            × (beq host r.host ≡ true)
            × (beq scheme (request_scheme lib r) ≡ true)))
      ↔ (Any (λ a. a ≡ scheme ++ (bytes "://" ++ host)) cfg.allowed_origins
          ⊎ ((cfg.allowed_origins ≡ []) × (host ≡ r.host) × (scheme ≡ request_scheme lib r)))
trust lib cfg r scheme host =
    let m = member_iff (scheme ++ (bytes "://" ++ host)) cfg.allowed_origins in
    let h = beq_iff host r.host in
    let s = beq_iff scheme (request_scheme lib r) in
    (
      λ t. elim t [
        | inl a ↦ inl (m.0 a)
        | inr b ↦ inr (empty_nil cfg.allowed_origins b.0, h.0 b.1, s.0 b.2)
      ],
      λ t. elim t [ inl a ↦ inl (m.1 a) | inr b ↦ inr (rw b.0 refl, h.1 b.1, s.1 b.2) ],
    )

origin-ok :
    (lib : Lib) (cfg : Config) (r : Request)
    → verify_origin lib r cfg.allowed_origins ≡ ok tt
    → FromOrigin lib cfg r
unfolding verify_origin
origin-ok lib cfg r h = elim (Bool-cases (is_empty (origin_of lib r))) [
  | inl b ↦ let h' : err origin_missing ≡ ok tt = rw b at h in absurd (cc)
  | inr b ↦
      let h' : verify_parsed lib r cfg.allowed_origins (lib.parse_url (origin_of lib r)) ≡ ok tt =
        rw b at h in
      elim (Option-cases (lib.parse_url (origin_of lib r))) [
        | inl n ↦
            let h'' : err origin_mismatch ≡ ok tt = unfold verify_parsed in rw n at h' in
            absurd (cc)
        | inr (u, e) ↦
            let p = (parsed-ok lib r cfg.allowed_origins u.0 u.1).0 (rw e at h') in
            record {
              scheme = u.0;
              host = u.1;
              parsed = e;
              named = not_empty (origin_of lib r) b;
              has_host = not_empty u.1 p.0;
              trusted = (trust lib cfg r u.0 u.1).0 p.1;
            }
      ]
]

origin-trusted :
    (lib : Lib) (cfg : Config) (r : Request)
    → FromOrigin lib cfg r
    → verify_origin lib r cfg.allowed_origins ≡ ok tt
unfolding verify_origin
origin-trusted lib cfg r f =
    rw (is_empty-false (origin_of lib r) f.named, f.parsed)
      ((parsed-ok lib r cfg.allowed_origins f.scheme f.host).1
        (is_empty-false f.host f.has_host, (trust lib cfg r f.scheme f.host).1 f.trusted))

checked-served :
    (lib : Lib) (a b : Result CsrfError (Unit {0}))
    → (checked lib a b ≡ served none) ↔ ((a ≡ ok tt) × (b ≡ ok tt))
unfolding checked
checked-served lib (err e) b = (λ h. absurd (cc), λ h. absurd (cc))
checked-served lib (ok u) (err e) = (λ h. absurd (cc), λ h. absurd (cc))
checked-served lib (ok u) (ok v) = (λ h. (refl, refl), λ h. refl)

-- A request with a writing method, on a path that is not exempt, is handed on exactly when it shows
-- in a header the token of its cookie and comes from a trusted origin.
pub middleware-served_iff :
    (lib : Lib) (cfg : Config) (token : Option Bytes) (r : Request)
    → member r.path cfg.skip ≡ false
    → is_write r.method ≡ true
    → (middleware lib cfg token r ≡ served none) ↔ (ShowsToken r × FromOrigin lib cfg r)
unfolding middleware
middleware-served_iff lib cfg token r s w =
    let c = checked-served lib (verify_double_submit r) (verify_origin lib r cfg.allowed_origins) in
    let t = ShowsToken-ok r in
    rw (s, w)
      (
        λ h. let k = c.0 h in (t.0 k.0, origin-ok lib cfg r k.1),
        λ h. c.1 (t.1 h.0, origin-trusted lib cfg r h.1),
      )
