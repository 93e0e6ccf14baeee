-- ===== src/Hub/Delivery.antt =====
-- Which agents a command reaches.
use sase.Prelude.{
  ℕ, ◌≡◌, ◌≢◌, refl, arith, true, Bool-cases, inl, inr, Option, none, some, [], ◌∷◌, if◌then◌else◌,
  is_empty, not_empty, ltb, length, ◌++◌,
}
use sase.Prelude.Bytes.{Bytes, beq, beq_iff}
use sase.Prelude.Dict.{
  Dict, get, put, del, get-put, get-del, Holds, put-Holds, del-Holds, nat_key, bytes_key,
}
use sase.Hub.{
  Command, AgentConn, Hub, or_nil, conns_of, register, unregister_in, unregister, offer, offer_all,
  broadcast_in, broadcast,
}

-- A command offered to an agent, if it is there.
unfoldable offered : Command → Option AgentConn → Option AgentConn
offered cmd none = none
offered cmd (some ac) = some (offer cmd ac)

-- An agent, if there is one, once a command has come for it.
abbrev pub with_command : Command → Option AgentConn → Option AgentConn
with_command cmd none = none
with_command cmd (some ac) =
    if ltb (length ac.send) 8 then some (record ac { send = ac.send ++ (cmd ∷ []) }) else some ac

offered-with_command : (cmd : Command) (o : Option AgentConn) → offered cmd o ≡ with_command cmd o
unfolding offered offer
offered-with_command cmd none = refl
offered-with_command cmd (some ac) = ground arith

offer_all-get :
    (cmd : Command) (id : ℕ) (set : Dict ℕ AgentConn)
    → get id (offer_all cmd set) ≡ offered cmd (get id set)
unfolding offer_all offered get
offer_all-get cmd id [] = refl
offer_all-get cmd id ((j, ac) ∷ set) = elim (Bool-cases (nat_key.same j id)) [
  | inl b ↦ rw b refl
  | inr b ↦ rw b (offer_all-get cmd id set)
]

broadcast_in-offered :
    (tenant_id other : Bytes) (id : ℕ) (cmd : Command) (o : Option (Dict ℕ AgentConn)) (h : Hub)
    → get tenant_id h.conns ≡ o
    → get id (conns_of other (broadcast_in tenant_id cmd o h)) ≡ (
        if beq tenant_id other
        then offered cmd (get id (conns_of other h))
        else get id (conns_of other h))
unfolding broadcast_in conns_of
broadcast_in-offered tenant_id other id cmd none h e = elim (Bool-cases (beq tenant_id other)) [
  | inl b ↦
      let same : tenant_id ≡ other = (beq_iff tenant_id other).0 b in
      rw (b, ← same, e) (unfold or_nil get offered in refl)
  | inr b ↦ rw b refl
]
broadcast_in-offered tenant_id other id cmd (some set) h e =
    elim (Bool-cases (beq tenant_id other)) [
      | inl b ↦
          let same : tenant_id ≡ other = (beq_iff tenant_id other).0 b in
          rw (get-put tenant_id other (offer_all cmd set) h.conns, b, ← same, e)
            (unfold or_nil in offer_all-get cmd id set)
      | inr b ↦ rw (get-put tenant_id other (offer_all cmd set) h.conns, b) refl
    ]

-- A command for a tenant goes to each of the tenant's agents that is connected, and to no agent of
-- another tenant: an agent of whom fewer than 8 commands wait has it as its last one afterwards, and
-- one of whom 8 or more wait is unchanged.
pub broadcast-offered :
    (tenant_id other : Bytes) (id : ℕ) (cmd : Command) (h : Hub)
    → get id (conns_of other (broadcast tenant_id cmd h)) ≡ (
        if beq tenant_id other
        then with_command cmd (get id (conns_of other h))
        else get id (conns_of other h))
unfolding broadcast
broadcast-offered tenant_id other id cmd h =
    rw (← (offered-with_command cmd (get id (conns_of other h))))
      (broadcast_in-offered tenant_id other id cmd (get tenant_id h.conns) h refl)

-- No tenant is listed without agents.
unfoldable pub NotEmptySets : Hub → Type 0
NotEmptySets h = Holds (λ set. set ≢ []) h.conns

put-not_empty : (id : ℕ) (ac : AgentConn) (set : Dict ℕ AgentConn) → put id ac set ≢ []
unfolding put
put-not_empty id ac [] = cc
put-not_empty id ac ((j, b) ∷ set) = elim (Bool-cases (nat_key.same j id)) [
  | inl e ↦ rw e (cc)
  | inr e ↦ rw e (cc)
]

register-NotEmptySets :
    (id : ℕ) (ac : AgentConn) (h : Hub) → NotEmptySets h → NotEmptySets (register id ac h)
unfolding NotEmptySets register
register-NotEmptySets id ac h n =
    put-Holds (λ set. set ≢ []) ac.tenant_id (put id ac (conns_of ac.tenant_id h)) h.conns n
      (put-not_empty id ac (conns_of ac.tenant_id h))

unregister_in-NotEmptySets :
    (id : ℕ) (tenant_id : Bytes) (o : Option (Dict ℕ AgentConn)) (h : Hub)
    → NotEmptySets h
    → NotEmptySets (unregister_in id tenant_id o h)
unfolding NotEmptySets unregister_in
unregister_in-NotEmptySets id tenant_id none h n = n
unregister_in-NotEmptySets id tenant_id (some set) h n = elim (Bool-cases (is_empty (del id set))) [
  | inl b ↦ rw b (del-Holds (λ x. x ≢ []) tenant_id h.conns n)
  | inr b ↦
      rw b (put-Holds (λ x. x ≢ []) tenant_id (del id set) h.conns n (not_empty (del id set) b))
]

empty_nil : (set : Dict ℕ AgentConn) → is_empty set ≡ true → set ≡ []
empty_nil [] h = refl
empty_nil (x ∷ set) h = cc

unregister_in-gone :
    (id j : ℕ) (tenant_id other : Bytes) (o : Option (Dict ℕ AgentConn)) (h : Hub)
    → get tenant_id h.conns ≡ o
    → get j (conns_of other (unregister_in id tenant_id o h)) ≡ (
        if beq tenant_id other
        then (if nat_key.same id j then none else get j (conns_of other h))
        else get j (conns_of other h))
unfolding unregister_in conns_of or_nil
unregister_in-gone id j tenant_id other none h e = elim (Bool-cases (beq tenant_id other)) [
  | inl b ↦
      let same : tenant_id ≡ other = (beq_iff tenant_id other).0 b in
      rw (b, ← same, e) (unfold get in ground arith)
  | inr b ↦ rw b refl
]
unregister_in-gone id j tenant_id other (some set) h e =
    let gd = get-del tenant_id other h.conns in
    let gp = get-put tenant_id other (del id set) h.conns in
    let gone = get-del id j set in
    elim (Bool-cases (beq tenant_id other)) [
      | inl b ↦
          let same : tenant_id ≡ other = (beq_iff tenant_id other).0 b in
          let there : get other h.conns ≡ some set = rw (← same) e in
          elim (Bool-cases (is_empty (del id set))) [
            | inl em ↦
                let nil : del id set ≡ [] = empty_nil (del id set) em in
                rw (em, gd, b, there) (rw nil at gone)
            | inr em ↦ rw (em, gp, b, there) gone
          ]
      | inr b ↦ elim (Bool-cases (is_empty (del id set))) [
        | inl em ↦ rw (em, gd, b) refl
        | inr em ↦ rw (em, gp, b) refl
      ]
    ]

-- An agent that goes is forgotten, all others stay, and a tenant without agents is listed no longer.
pub unregister-gone :
    (id j : ℕ) (tenant_id other : Bytes) (h : Hub)
    → NotEmptySets h
    → (get j (conns_of other (unregister id tenant_id h)) ≡ (
        if beq tenant_id other
        then (if nat_key.same id j then none else get j (conns_of other h))
        else get j (conns_of other h)))
      × NotEmptySets (unregister id tenant_id h)
unfolding unregister
unregister-gone id j tenant_id other h n = (
  unregister_in-gone id j tenant_id other (get tenant_id h.conns) h refl,
  unregister_in-NotEmptySets id tenant_id (get tenant_id h.conns) h n,
)
