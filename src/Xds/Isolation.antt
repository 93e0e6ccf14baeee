-- ===== src/Xds/Isolation.antt =====
-- A device's stream subscribes to the tenant of its certificate only.
use sase.Prelude.{
  ℕ, ◌≡◌, refl, arith, Bool, true, Bool-cases, inl, inr, Option, none, some, List, [], ◌∷◌,
  is_empty,
}
use sase.Prelude.Bytes.{Bytes, beq_iff}
use sase.Prelude.Dict.{get, put, del, Holds, put-Holds, del-Holds, nat_key, bytes_key}
use sase.Xds.Auth.{StreamAuth, named, is_some, authorize_subscription, role_pop, role_device}
use sase.Xds.Resources.{Database}
use sase.Xds.Server.{
  CacheApi, Server, new_server, set_strict_sub_auth, with_stream, no_identity, tenant_from_name,
  record_ref, registered, auth_for, on_delta_stream_open, on_delta_stream_closed, closed,
}
use sase.Xds.Requests.{DeltaRequest, load, on_delta_request, subscribe_all, reconcile_all}
use sase.Xds.Unchanged.{SameSubs, load-same}
use sase.Xds.Tables.{named-put}
use sase.Xds.Counts.{release_all-streams}
use sase.Xds.Steps.{
  Step, opened, ended, requested, notified, reconciled, strictness, Reach, here, next, notify,
  notify-same, reconcile_all-same,
}

-- The stream of a device subscribes to the tenant in its certificate at most.
unfoldable pub OwnOnly : StreamAuth → Type 0
OwnOnly sa =
    sa.role ≡ role_device → (tid : Bytes) → named tid sa.tenants ≡ true → tid ≡ sa.cert_tenant

authorized-own :
    (role cert_tenant tid : Bytes) (has_cert strict : Bool)
    → (authorize_subscription role has_cert cert_tenant tid strict).0 ≡ true
    → role ≡ role_device
    → tid ≡ cert_tenant
unfolding authorize_subscription
authorized-own role cert_tenant tid has_cert strict h d =
    ground (arith, beq_iff cert_tenant tid, beq_iff role role_device, beq_iff role role_pop)

fresh-OwnOnly : (sa : StreamAuth) → sa.tenants ≡ [] → OwnOnly sa
unfolding OwnOnly named is_some get
fresh-OwnOnly sa e d tid h = ground arith

taken-OwnOnly :
    (sa sb : StreamAuth) (tid : Bytes)
    → OwnOnly sa
    → (sb.role ≡ sa.role) × (sb.cert_tenant ≡ sa.cert_tenant)
    → sb.tenants ≡ put tid tt sa.tenants
    → (sa.role ≡ role_device → tid ≡ sa.cert_tenant)
    → OwnOnly sb
unfolding OwnOnly
taken-OwnOnly sa sb tid own same t a d j h =
    let n : named j (put tid tt sa.tenants) ≡ true = rw (← t) h in
    let d' : sa.role ≡ role_device = rw (← same.0) d in
    ground (arith, named-put tid j sa.tenants, beq_iff tid j, own d' j, a d', same.1, n)

module _ {C : Type 0} (api : CacheApi C) where
  abbrev Isolated : Server C → Type 0
  Isolated s = Holds OwnOnly s.streams

  with_stream-Isolated :
      (id : ℕ) (sa : StreamAuth) (s : Server C)
      → OwnOnly sa
      → Isolated s
      → Isolated (with_stream id sa s)
  unfolding with_stream
  with_stream-Isolated id sa s o h = put-Holds OwnOnly id sa s.streams h o

  moved : (s t : Server C) → SameSubs t s → Isolated s → Isolated t
  unfolding SameSubs
  moved s t m h = rw m.0 h

  registered-Isolated :
      (id : ℕ) (o : Option StreamAuth) (s : Server C)
      → get id s.streams ≡ o
      → Isolated s
      → Isolated (registered api id o s).1 × OwnOnly (registered api id o s).0
  unfolding registered no_identity
  registered-Isolated id none s e h =
      let own = fresh-OwnOnly no_identity refl in (with_stream-Isolated id no_identity s own h, own)
  registered-Isolated id (some sa) s e h = (h, unfold Holds in h id sa e)

  record_ref-Isolated :
      (id : ℕ) (sa : StreamAuth) (tid url : Bytes) (s : Server C)
      → OwnOnly sa
      → (sa.role ≡ role_device → tid ≡ sa.cert_tenant)
      → Isolated s
      → Isolated (record_ref api id sa tid url s).1 × OwnOnly (record_ref api id sa tid url s).0
  unfolding record_ref with_stream
  record_ref-Isolated id sa tid url s own a h =
      let typed = record sa { named_types = put url tt sa.named_types } in
      let counted = record typed { tenants = put tid tt sa.tenants } in
      let own' : OwnOnly typed = unfold OwnOnly in own in
      let more = taken-OwnOnly sa counted tid own (refl, refl) refl a in
      elim (Bool-cases (named tid sa.tenants)) [
        | inl b ↦ rw b (with_stream-Isolated id typed s own' h, own')
        | inr b ↦ rw b (put-Holds OwnOnly id counted s.streams h more, more)
      ]

  subscribe_all-Isolated :
      (db : Database) (id : ℕ) (url : Bytes) (names : List Bytes) (sa : StreamAuth) (s : Server C)
      → OwnOnly sa
      → Isolated s
      → Isolated (subscribe_all api db id url names sa s).1
  unfolding subscribe_all
  subscribe_all-Isolated db id url [] sa s own h = h
  subscribe_all-Isolated db id url (name ∷ names) sa s own h =
      let tid = tenant_from_name name in
      let recorded = record_ref api id sa tid url s in
      let after = load api db url tid recorded.1 in
      elim (Bool-cases (is_empty tid)) [
        | inl a ↦ rw a h
        | inr a ↦
            elim (Bool-cases
              (authorize_subscription sa.role sa.has_cert sa.cert_tenant tid s.strict_sub_auth).0) [
                | inl b ↦
                    let k =
                      record_ref-Isolated id sa tid url s own
                        (authorized-own sa.role sa.cert_tenant tid sa.has_cert s.strict_sub_auth b)
                        h in
                    rw (a, b)
                      (subscribe_all-Isolated db id url names recorded.0 after k.1
                        (moved recorded.1 after (load-same api db url tid recorded.1) k.0))
                | inr b ↦ rw (a, b) h
              ]
      ]

  closed-Isolated :
      (id : ℕ) (o : Option StreamAuth) (s : Server C) → Isolated s → Isolated (closed api id o s)
  unfolding closed
  closed-Isolated id none s h = h
  closed-Isolated id (some sa) s h =
      rw (release_all-streams api sa.tenants (record s { streams = del id s.streams }))
        (del-Holds OwnOnly id s.streams h)

  request-Isolated :
      (db : Database) (id : ℕ) (req : DeltaRequest) (s : Server C)
      → Isolated s
      → Isolated (on_delta_request api db id req s).1
  unfolding on_delta_request auth_for
  request-Isolated db id req s h =
      let k = registered-Isolated id (get id s.streams) s refl h in
      let found = registered api id (get id s.streams) s in
      elim (Bool-cases (is_empty req.resource_names_subscribe)) [
        | inl e ↦ rw e k.0
        | inr e ↦ rw e (
            subscribe_all-Isolated db id req.type_url req.resource_names_subscribe found.0 found.1
              k.1 k.0)
      ]

  Step-Isolated : (s : Server C) {t : Server C} → Step api s t → Isolated s → Isolated t
  unfolding set_strict_sub_auth on_delta_stream_open on_delta_stream_closed
  Step-Isolated s (opened id peer e) h = with_stream-Isolated id _ s (fresh-OwnOnly _ refl) h
  Step-Isolated s (ended id) h = closed-Isolated id (get id s.streams) s h
  Step-Isolated s (requested db id req) h = request-Isolated db id req s h
  Step-Isolated s (notified notice db tid) h =
      moved s (notify api notice db tid s) (notify-same api notice db tid s) h
  Step-Isolated s (reconciled db) h =
      moved s (reconcile_all api db s) (reconcile_all-same api db s) h
  Step-Isolated s (strictness strict) h = h

  Reach-Isolated : {s t : Server C} → Isolated s → Reach api s t → Isolated t
  Reach-Isolated h here = h
  Reach-Isolated h (next {t} r st) = Step-Isolated t st (Reach-Isolated h r)

  -- Whatever calls came since the server was made, in whatever order and whether strict or not, a
  -- stream whose certificate is a device's subscribes to no tenant but the certificate's.
  pub Reach-device_isolated :
      (s : Server C) (id : ℕ) (sa : StreamAuth) (tid : Bytes)
      → Reach api (new_server api) s
      → get id s.streams ≡ some sa
      → sa.role ≡ role_device
      → named tid sa.tenants ≡ true
      → tid ≡ sa.cert_tenant
  unfolding OwnOnly Holds new_server get
  Reach-device_isolated s id sa tid r e d n =
      let start : Isolated (new_server api) = λ j sb k. absurd (cc) in
      Reach-Isolated start r id sa e d tid n
