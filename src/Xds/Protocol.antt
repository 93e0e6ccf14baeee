-- ===== src/Xds/Protocol.antt =====
-- The client of the point of presence against the server: what it sends is accepted.
use sase.Prelude.{
  ℕ, ◌≡◌, ◌≢◌, refl, arith, Bool, true, false, Bool-cases, inl, inr, List, [], ◌∷◌, ◌++◌, some, All,
  is_empty-false, length, drop, ltb, length-append,
}
use sase.Prelude.Bytes.{Bytes, has_prefix-append, beq_refl}
use sase.Prelude.Dict.{get, put, get-put, nat_key, bytes_key}
use sase.Prelude.Result.{Result, ok}
use sase.Xds.Auth.{StreamAuth, named, is_some, authorize_subscription}
use sase.Xds.Resources.{Database, Resource}
use sase.Xds.Server.{
  CacheApi, Server, name_prefix, resource_name, tenant_from_name, with_stream, record_ref,
  registered, auth_for,
}
use sase.Xds.Requests.{DeltaRequest, Denied, load, subscribe_all, on_delta_request}
use sase.Xds.Unchanged.{SameSubs, load-same}
use sase.Xds.Client.{subscribe_request, ack_request, receive_all, subscribe_stream}

drop_front : (xs ys : Bytes) → drop (length xs) (xs ++ ys) ≡ ys
drop_front [] ys = refl
drop_front (x ∷ xs) ys = drop_front xs ys

longer : (p t : Bytes) → t ≢ [] → ltb (length p) (length (p ++ t)) ≡ true
longer p [] n = absurd (n refl)
longer p (x ∷ t) n = ground (arith, length-append p (x ∷ t))

pub tenant_from_name-resource_name : (t : Bytes) → t ≢ [] → tenant_from_name (resource_name t) ≡ t
unfolding tenant_from_name resource_name
tenant_from_name-resource_name t n =
    rw (longer name_prefix t n, has_prefix-append name_prefix t, drop_front name_prefix t) refl

module _ {C : Type 0} (api : CacheApi C) where
  -- A stream that is open and has named a type.
  abbrev Subscribed : ℕ → Bytes → Server C → Type 0
  Subscribed id url s =
      (sa : StreamAuth) × (get id s.streams ≡ some sa) × (named url sa.named_types ≡ true)

  named-put_same : (url : Bytes) (sa : StreamAuth) → named url (put url tt sa.named_types) ≡ true
  unfolding named is_some
  named-put_same url sa = ground (arith, get-put url url tt sa.named_types, beq_refl url)

  record_ref-Subscribed :
      (id : ℕ) (sa : StreamAuth) (tid url : Bytes) (s : Server C)
      → Subscribed id url (record_ref api id sa tid url s).1
  unfolding record_ref with_stream
  record_ref-Subscribed id sa tid url s =
      let typed = record sa { named_types = put url tt sa.named_types } in
      let counted = record typed { tenants = put tid tt sa.tenants } in
      elim (Bool-cases (named tid sa.tenants)) [
        | inl b ↦ rw b (typed, ground (arith, get-put id id typed s.streams), named-put_same url sa)
        | inr b ↦
            rw b (counted, ground (arith, get-put id id counted s.streams), named-put_same url sa)
      ]

  load-Subscribed :
      (db : Database) (id : ℕ) (url tid : Bytes) (s : Server C)
      → Subscribed id url s
      → Subscribed id url (load api db url tid s)
  load-Subscribed db id url tid s h =
      let same : (load api db url tid s).streams ≡ s.streams =
        unfold SameSubs in (load-same api db url tid s).0 in
      (h.0, rw same h.1, h.2)

  subscribe-accepted :
      (db : Database) (id : ℕ) (url t : Bytes) (sa : StreamAuth) (s : Server C)
      → get id s.streams ≡ some sa
      → t ≢ []
      → (authorize_subscription sa.role sa.has_cert sa.cert_tenant t s.strict_sub_auth).0 ≡ true
      → ((on_delta_request api db id (subscribe_request url t) s).0 ≡ ok tt)
        × Subscribed id url (on_delta_request api db id (subscribe_request url t) s).1
  unfolding on_delta_request auth_for registered subscribe_request subscribe_all
  subscribe-accepted db id url t sa s e n a =
      rw (e, tenant_from_name-resource_name t n, is_empty-false t n, a)
        (
          refl,
          load-Subscribed db id url t (record_ref api id sa t url s).1
              (record_ref-Subscribed id sa t url s),
        )

  ack-accepted :
      (db : Database) (id : ℕ) (url : Bytes) (s : Server C)
      → Subscribed id url s
      → ((on_delta_request api db id (ack_request url) s).0 ≡ ok tt)
        × ((on_delta_request api db id (ack_request url) s).1 ≡ s)
  unfolding on_delta_request auth_for registered ack_request
  ack-accepted db id url s h = rw (h.1, h.2) (refl, refl)

  -- The server's answers to requests of one stream, in order.
  unfoldable pub answers :
      Database → ℕ → List DeltaRequest → Server C → List (Result Denied (Unit {0}))
  answers db id [] s = []
  answers db id (req ∷ reqs) s =
      let (answer, next) = on_delta_request api db id req s in answer ∷ answers db id reqs next

  acks-accepted :
      (db : Database) (id : ℕ) (url : Bytes) (responses : List (List Resource × Bool))
      (s : Server C)
      → Subscribed id url s
      → All (λ r. r ≡ ok tt) (answers db id (receive_all url responses).0 s)
  unfolding answers receive_all
  acks-accepted db id url [] s h = tt
  acks-accepted db id url ((resources, true) ∷ responses) s h =
      let a = ack-accepted db id url s h in (a.0, rw a.1 (acks-accepted db id url responses s h))
  acks-accepted db id url ((resources, false) ∷ responses) s h = tt

  -- Whatever responses come, no request that the client sends for a tenant is refused by the server,
  -- on a stream whose certificate may subscribe to that tenant: neither the subscription nor any of
  -- the empty requests that acknowledge a response.
  pub subscribe_stream-accepted :
      (db : Database) (id : ℕ) (url t : Bytes) (responses : List (List Resource × Bool))
      (sa : StreamAuth) (s : Server C)
      → get id s.streams ≡ some sa
      → t ≢ []
      → (authorize_subscription sa.role sa.has_cert sa.cert_tenant t s.strict_sub_auth).0 ≡ true
      → All (λ r. r ≡ ok tt) (answers db id (subscribe_stream url t responses).0 s)
  unfolding answers subscribe_stream
  subscribe_stream-accepted db id url t responses sa s e n a =
      let (first, subscribed) = subscribe-accepted db id url t sa s e n a in
      (
        first,
        acks-accepted db id url responses (on_delta_request api db id (subscribe_request url t) s).1
            subscribed,
      )
