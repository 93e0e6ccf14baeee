-- ===== src/Xds/Accounting.antt =====
-- The server's counts are those of its streams, whatever calls come in whatever order.
use sase.Prelude.{
  ℕ, ◌≡◌, refl, arith, Bool-cases, inl, inr, Option, none, some, Option-cases, List, [], ◌∷◌,
  is_empty,
}
use sase.Prelude.Bytes.{Bytes}
use sase.Prelude.Dict.{Holds, del-Holds, get, put, del, get-put, del-IsKeyed, nat_key, bytes_key}
use sase.Xds.Auth.{StreamAuth, Leaf, named, authorize_subscription}
use sase.Xds.Resources.{Database}
use sase.Xds.Server.{
  CacheApi, Server, with_stream, no_identity, record_ref, registered, auth_for,
  on_delta_stream_open, on_delta_stream_closed, closed, tenant_from_name,
}
use sase.Xds.Requests.{DeltaRequest, load, on_delta_request, subscribe_all}
use sase.Xds.Unchanged.{SameSubs, load-same}
use sase.Xds.Counts.{bit, subscribers, subscribers-del, release_all-refs, release_all-streams}
use sase.Xds.Tables.{
  TenantsKeyed, Counted, held-some, put_new-Counted, put_same-Counted, put_more-Counted,
  lower-positive_at,
}

module _ {C : Type 0} (api : CacheApi C) where
  close-Counted :
      (id : ℕ) (sa : StreamAuth) (s : Server C)
      → get id s.streams ≡ some sa
      → Counted s.streams s.tenant_refs
      → Counted (closed api id (some sa) s).streams (closed api id (some sa) s).tenant_refs
  unfolding Counted closed Holds bit
  close-Counted id sa s e h =
      let less = record s { streams = del id s.streams } in
      rw (release_all-streams api sa.tenants less) (
        del-IsKeyed id s.streams h.0,
        del-Holds TenantsKeyed id s.streams h.1,
        λ j.
            let k = subscribers-del j id s.streams h.0 in
            let g = held-some j id sa s.streams e in
            let n = h.2 j in
            rw (release_all-refs api sa.tenants j less (h.1 id sa e), n)
              (elim (Bool-cases (named j sa.tenants)) [
                | inl b ↦
                    let one : bit (named j sa.tenants) ≡ 1 = rw b refl in
                    rw b (
                      lower-positive_at (subscribers j s.streams) (subscribers j (del id s.streams))
                        (omega (arith, k, g, one)))
                | inr b ↦
                    let none : bit (named j sa.tenants) ≡ 0 = rw b refl in
                    let same : subscribers j (del id s.streams) ≡ subscribers j s.streams =
                      omega (arith, k, g, none) in
                    rw (b, same) refl
              ]),
      )

  -- A stream's entry is the one that the call holds.
  abbrev Entry : ℕ → StreamAuth → Server C → Type 0
  Entry id sa s = get id s.streams ≡ some sa

  abbrev CountedServer : Server C → Type 0
  CountedServer s = Counted s.streams s.tenant_refs

  registered-Counted :
      (id : ℕ) (o : Option StreamAuth) (s : Server C)
      → get id s.streams ≡ o
      → CountedServer s
      → CountedServer (registered api id o s).1
        × Entry id (registered api id o s).0 (registered api id o s).1
  unfolding registered with_stream no_identity
  registered-Counted id none s e h = (
    put_new-Counted id no_identity s.streams s.tenant_refs e refl h,
    ground (arith, get-put id id no_identity s.streams),
  )
  registered-Counted id (some sa) s e h = (h, e)

  record_ref-Counted :
      (id : ℕ) (sa : StreamAuth) (tid url : Bytes) (s : Server C)
      → Entry id sa s
      → CountedServer s
      → CountedServer (record_ref api id sa tid url s).1
        × Entry id (record_ref api id sa tid url s).0 (record_ref api id sa tid url s).1
  unfolding record_ref with_stream
  record_ref-Counted id sa tid url s e h =
      let typed = record sa { named_types = put url tt sa.named_types } in
      let counted = record typed { tenants = put tid tt sa.tenants } in
      elim (Bool-cases (named tid sa.tenants)) [
        | inl b ↦ rw b (
          put_same-Counted id typed sa s.streams s.tenant_refs e refl h,
          ground (arith, get-put id id typed s.streams),
        )
        | inr b ↦ rw b (
          put_more-Counted id counted sa tid s.streams s.tenant_refs e refl b h,
          ground (arith, get-put id id counted s.streams),
        )
      ]

  moved :
      (id : ℕ) (sa : StreamAuth) (s t : Server C)
      → SameSubs t s
      → CountedServer s × Entry id sa s
      → CountedServer t × Entry id sa t
  unfolding SameSubs
  moved id sa s t m h = rw (m.0, m.1) h

  subscribe_all-Counted :
      (db : Database) (id : ℕ) (url : Bytes) (names : List Bytes) (sa : StreamAuth) (s : Server C)
      → Entry id sa s
      → CountedServer s
      → CountedServer (subscribe_all api db id url names sa s).1
  unfolding subscribe_all
  subscribe_all-Counted db id url [] sa s e h = h
  subscribe_all-Counted db id url (name ∷ names) sa s e h =
      let tid = tenant_from_name name in
      let recorded = record_ref api id sa tid url s in
      let after = load api db url tid recorded.1 in
      let k =
        moved id recorded.0 recorded.1 after (load-same api db url tid recorded.1)
          (record_ref-Counted id sa tid url s e h) in
      let rest = subscribe_all-Counted db id url names recorded.0 after k.1 k.0 in
      elim (Bool-cases (is_empty tid)) [
        | inl a ↦ rw a h
        | inr a ↦
            elim (Bool-cases
              (authorize_subscription sa.role sa.has_cert sa.cert_tenant tid s.strict_sub_auth).0) [
                | inl b ↦ rw (a, b) rest
                | inr b ↦ rw (a, b) h
              ]
      ]

  pub open-Counted :
      (id : ℕ) (peer : Option (List Leaf)) (s : Server C)
      → get id s.streams ≡ none
      → CountedServer s
      → CountedServer (on_delta_stream_open api id peer s)
  unfolding on_delta_stream_open with_stream
  open-Counted id peer s e h = put_new-Counted id _ s.streams s.tenant_refs e refl h

  pub closed-Counted :
      (id : ℕ) (s : Server C) → CountedServer s → CountedServer (on_delta_stream_closed api id s)
  unfolding on_delta_stream_closed closed
  closed-Counted id s h = elim (Option-cases (get id s.streams)) [
    | inl e ↦ rw e h
    | inr (sa, e) ↦ rw e (close-Counted id sa s e h)
  ]

  pub request-Counted :
      (db : Database) (id : ℕ) (req : DeltaRequest) (s : Server C)
      → CountedServer s
      → CountedServer (on_delta_request api db id req s).1
  unfolding on_delta_request auth_for
  request-Counted db id req s h =
      let k = registered-Counted id (get id s.streams) s refl h in
      let found = registered api id (get id s.streams) s in
      elim (Bool-cases (is_empty req.resource_names_subscribe)) [
        | inl e ↦ rw e k.0
        | inr e ↦ rw e (
            subscribe_all-Counted db id req.type_url req.resource_names_subscribe found.0 found.1
              k.1 k.0)
      ]
