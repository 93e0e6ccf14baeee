-- ===== src/Xds/Answers.antt =====
-- Which requests a stream's subscriptions are answered, and which are refused.
use sase.Prelude.{
  ℕ, ltb, length, ◌&&◌, &&-true, ◌≡◌, ◌≢◌, ◌⊎◌, ◌↔◌, refl, arith, ◌++◌, not_empty, is_empty-false,
  All-imp, Bool, true, false, Bool-cases, inl, inr, List, [], ◌∷◌, All, is_empty, some,
  if◌then◌else◌,
}
use sase.Prelude.Bytes.{Bytes, bytes, beq_iff, has_prefix, has_prefix→append}
use sase.Prelude.Dict.{get, nat_key}
use sase.Prelude.Result.{ok, err}
use sase.Xds.Auth.{StreamAuth, named, role_pop, role_device, authorize_subscription}
use sase.Xds.Resources.{Database}
use sase.Xds.Server.{
  CacheApi, Server, tenant_from_name, record_ref, registered, auth_for, with_stream,
}
use sase.Xds.Requests.{DeltaRequest, wildcard, load, on_delta_request, subscribe_all}
use sase.Xds.Unchanged.{SameSubs, load-same}

-- What the loop over the names asks of each.
unfoldable Allowed : Bytes → Bool → Bytes → Bool → Bytes → Type 0
Allowed role has_cert cert_tenant strict name =
    (is_empty (tenant_from_name name) ≡ false)
    × ((authorize_subscription role has_cert cert_tenant (tenant_from_name name) strict).0 ≡ true)

-- A stream of this role, with this tenant in its certificate, may subscribe to the resource: its name
-- is tenant/<id> and a point of presence may have every tenant, a device its own, and a peer of
-- another role or none every tenant unless the server is strict.
abbrev pub MaySubscribe : Bytes → Bytes → Bool → Bytes → Type 0
MaySubscribe role cert_tenant strict name =
    (id : Bytes) × (name ≡ bytes "tenant/" ++ id)
    × (id ≢ [])
    × ((role ≡ bytes "pop")
        ⊎ (((role ≡ bytes "device") × (id ≡ cert_tenant))
            ⊎ ((role ≢ bytes "pop") × (role ≢ bytes "device") × (strict ≡ false))))

tenant_from_name-some :
    (name : Bytes)
    → is_empty (tenant_from_name name) ≡ false
    → name ≡ bytes "tenant/" ++ tenant_from_name name
unfolding tenant_from_name
tenant_from_name-some name h =
    elim (Bool-cases (ltb 7 (length name) && has_prefix name (bytes "tenant/"))) [
      | inl b ↦
          let front = &&-true (ltb 7 (length name)) (has_prefix name (bytes "tenant/")) b in
          rw b (has_prefix→append name (bytes "tenant/") front.1)
      | inr b ↦ let none : true ≡ false = rw b at h in absurd (cc)
    ]

tenant_from_name-named : (id : Bytes) → id ≢ [] → tenant_from_name (bytes "tenant/" ++ id) ≡ id
unfolding tenant_from_name has_prefix
tenant_from_name-named [] h = absurd (h refl)
tenant_from_name-named (x ∷ id) h = ground arith

authorized_iff :
    (role cert_tenant id : Bytes) (has_cert strict : Bool)
    → id ≢ []
    → ((authorize_subscription role has_cert cert_tenant id strict).0 ≡ true) ↔ (
        (role ≡ bytes "pop")
        ⊎ (((role ≡ bytes "device") × (id ≡ cert_tenant))
            ⊎ ((role ≢ bytes "pop") × (role ≢ bytes "device") × (strict ≡ false))))
unfolding authorize_subscription
authorized_iff role cert_tenant id has_cert strict h = ground (
  arith,
  beq_iff role role_pop,
  beq_iff role role_device,
  beq_iff cert_tenant [],
  beq_iff cert_tenant id,
)

Allowed-iff :
    (role : Bytes) (has_cert : Bool) (cert_tenant : Bytes) (strict : Bool) (name : Bytes)
    → Allowed role has_cert cert_tenant strict name ↔ MaySubscribe role cert_tenant strict name
unfolding Allowed
Allowed-iff role has_cert cert_tenant strict name = (
  λ h.
      let some_id = not_empty (tenant_from_name name) h.0 in
      (
        tenant_from_name name,
        tenant_from_name-some name h.0,
        some_id,
        (authorized_iff role cert_tenant (tenant_from_name name) has_cert strict some_id).0 h.1,
      ),
  λ h.
      let (id, form, some_id, may) = h in
      let same : tenant_from_name name ≡ id = rw form (tenant_from_name-named id some_id) in
      rw same (
        is_empty-false id some_id,
        (authorized_iff role cert_tenant id has_cert strict some_id).1 may,
      ),
)

All_iff :
    (P Q : Bytes → Type 0) → ((x : Bytes) → P x ↔ Q x) → (xs : List Bytes) → All P xs ↔ All Q xs
All_iff P Q f xs = (All-imp P Q (λ x. (f x).0) xs, All-imp Q P (λ x. (f x).1) xs)

module _ {C : Type 0} (api : CacheApi C) where
  -- The identity that a loop over names goes on with.
  abbrev SameIdentity : StreamAuth → Server C → StreamAuth → Server C → Type 0
  SameIdentity sa s sb t =
      (sb.role ≡ sa.role)
      × (sb.has_cert ≡ sa.has_cert)
      × (sb.cert_tenant ≡ sa.cert_tenant)
      × (t.strict_sub_auth ≡ s.strict_sub_auth)

  record_ref-identity :
      (id : ℕ) (sa : StreamAuth) (tid url : Bytes) (s : Server C)
      → SameIdentity sa s (record_ref api id sa tid url s).0 (record_ref api id sa tid url s).1
  unfolding record_ref with_stream
  record_ref-identity id sa tid url s = elim (Bool-cases (named tid sa.tenants)) [
    | inl b ↦ rw b (refl, refl, refl, refl)
    | inr b ↦ rw b (refl, refl, refl, refl)
  ]

  abbrev AllowedNames : StreamAuth → Server C → List Bytes → Type 0
  AllowedNames sa s names = All (Allowed sa.role sa.has_cert sa.cert_tenant s.strict_sub_auth) names

  same_allowed :
      (sa sb : StreamAuth) (s t : Server C) (names : List Bytes)
      → SameIdentity sa s sb t
      → AllowedNames sa s names ↔ AllowedNames sb t names
  same_allowed sa sb s t names m =
      (λ h. rw (m.0, m.1, m.2, m.3) h, λ h. rw (← m.0, ← m.1, ← m.2, ← m.3) h)

  load-strict :
      (db : Database) (url tid : Bytes) (s : Server C)
      → (load api db url tid s).strict_sub_auth ≡ s.strict_sub_auth
  load-strict db url tid s = unfold SameSubs in (load-same api db url tid s).2

  subscribe_all-ok_iff :
      (db : Database) (id : ℕ) (url : Bytes) (names : List Bytes) (sa : StreamAuth) (s : Server C)
      → ((subscribe_all api db id url names sa s).0 ≡ ok tt)
        ↔ All (Allowed sa.role sa.has_cert sa.cert_tenant s.strict_sub_auth) names
  unfolding subscribe_all Allowed
  subscribe_all-ok_iff db id url [] sa s = (λ h. tt, λ h. refl)
  subscribe_all-ok_iff db id url (name ∷ names) sa s =
      let tid = tenant_from_name name in
      let recorded = record_ref api id sa tid url s in
      let after = load api db url tid recorded.1 in
      let same = record_ref-identity id sa tid url s in
      let rest = subscribe_all-ok_iff db id url names recorded.0 after in
      let strict = load-strict db url tid recorded.1 in
      let allowed =
        same_allowed sa recorded.0 s after names (same.0, same.1, same.2, rw strict same.3) in
      elim (Bool-cases (is_empty tid)) [
        | inl a ↦ rw a (λ h. absurd (cc), λ h. absurd (cc))
        | inr a ↦
            elim (Bool-cases
              (authorize_subscription sa.role sa.has_cert sa.cert_tenant tid s.strict_sub_auth).0) [
                | inl b ↦
                    rw (a, b)
                      (λ h. ((refl, refl), allowed.1 (rest.0 h)), λ h. rest.1 (allowed.0 h.1))
                | inr b ↦ rw (a, b) (λ h. absurd (cc), λ h. absurd (cc))
              ]
      ]

  wildcard-ok_iff : (b : Bool) → ((if b then ok tt else err wildcard) ≡ ok tt) ↔ (b ≡ true)
  wildcard-ok_iff true = (λ h. refl, λ h. refl)
  wildcard-ok_iff false = (λ h. absurd (cc), λ h. absurd (cc))

  answer-ok_iff :
      (db : Database) (id : ℕ) (url : Bytes) (names : List Bytes) (sa : StreamAuth) (s : Server C)
      → ((if is_empty names
            then ((if named url sa.named_types then ok tt else err wildcard), s)
            else subscribe_all api db id url names sa s).0
          ≡ ok tt)
        ↔ ((is_empty names ≡ true → named url sa.named_types ≡ true)
            × All (Allowed sa.role sa.has_cert sa.cert_tenant s.strict_sub_auth) names)
  answer-ok_iff db id url [] sa s =
      let w = wildcard-ok_iff (named url sa.named_types) in
      (λ h. (λ e. w.0 h, tt), λ h. w.1 (h.0 refl))
  answer-ok_iff db id url (name ∷ names) sa s =
      let r = subscribe_all-ok_iff db id url (name ∷ names) sa s in
      (λ h. (λ e. absurd (cc), r.0 h), λ h. r.1 h.1)

  -- On a stream that has opened, a request that names resources is accepted exactly when each name is
  -- tenant/<id> for a tenant that the stream may subscribe to: any for a point of presence, its own for
  -- a device, any for another role unless the server is strict. A request without names is accepted
  -- exactly when the stream has named one of that type before.
  pub on_delta_request-ok_iff :
      (db : Database) (id : ℕ) (req : DeltaRequest) (sa : StreamAuth) (s : Server C)
      → get id s.streams ≡ some sa
      → ((on_delta_request api db id req s).0 ≡ ok tt) ↔ (
          (is_empty req.resource_names_subscribe ≡ true → named req.type_url sa.named_types ≡ true)
          × All
              (MaySubscribe sa.role sa.cert_tenant s.strict_sub_auth)
              req.resource_names_subscribe)
  unfolding on_delta_request auth_for registered
  on_delta_request-ok_iff db id req sa s e =
      let names = req.resource_names_subscribe in
      let answer = answer-ok_iff db id req.type_url names sa s in
      let may =
        All_iff (Allowed sa.role sa.has_cert sa.cert_tenant s.strict_sub_auth)
          (MaySubscribe sa.role sa.cert_tenant s.strict_sub_auth)
          (Allowed-iff sa.role sa.has_cert sa.cert_tenant s.strict_sub_auth) names in
      rw e (λ h. ((answer.0 h).0, may.0 (answer.0 h).1), λ h. answer.1 (h.0, may.1 h.1))
