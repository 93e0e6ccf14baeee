-- ===== src/Revtunnel/Tenants.antt =====
-- internal/revtunnel/revtunnel.go: which connectors a tenant's streams and requests reach.
use sase.Prelude.{
  ◌≡◌, ◌≢◌, refl, sym, arith, Bool, true, false, Bool-cases, inl, inr, ◌⊎◌, [], ◌∷◌, Option, none,
  some, All, ◌==◌,
}
use mathlib.Core.Option.{some-injective}
use sase.Prelude.Bytes.{Bytes, beq, beq_iff}
use sase.Prelude.Dict.{Dict, get, put, del, get-put, get-del, bytes_key, nat_key}
use sase.Revtunnel.Mux.{MuxConn}
use sase.Revtunnel.Registry.{
  Hello, Connection, Registry, slash, key, peer_cert_tenant, close_connection, close_old,
  close_mux_of, close_mux, close_old_mux, may_register, without,
}

-- A name without a slash, as the identifiers of the tenants are.
abbrev pub Slashless : Bytes → Type 0
Slashless tenant = All (λ x. x ≢ slash) tenant

pub key-tenant : (t u a b : Bytes) → Slashless t → Slashless u → key t a ≡ key u b → t ≡ u
unfolding key
key-tenant [] [] a b h k e = refl
key-tenant [] (y ∷ u) a b h k e = absurd (k.0 (cc))
key-tenant (x ∷ t) [] a b h k e = absurd (h.0 (cc))
key-tenant (x ∷ t) (y ∷ u) a b h k e =
    let rest : key t a ≡ key u b = cc in
    let same : t ≡ u = key-tenant t u a b h.1 k.1 rest in let head : x ≡ y = cc in cc

-- The tenant is the one in the peer's certificate, or there is none there and none is required.
unfoldable pub CertifiedFor : Bool → Bytes → Connection → Type 0
CertifiedFor require tenant c =
    (peer_cert_tenant c.peer ≡ some tenant) ⊎ ((peer_cert_tenant c.peer ≡ none) × (require ≡ false))

-- Whatever stands in a table of routes was certified for the tenant of its key.
unfoldable pub AreCertified : Bool → Dict Bytes Connection → Type 0
AreCertified require table =
    (k : Bytes) (c : Connection)
    → get k table ≡ some c
    → (tenant : Bytes) × (app : Bytes) × Slashless tenant
      × (k ≡ key tenant app)
      × CertifiedFor require tenant c

unfoldable pub RoutesCertified : Bool → Registry → Type 0
RoutesCertified require s =
    AreCertified require s.routes
    × AreCertified require s.stream_routes
    × (s.require_cert_tenant ≡ require)

pub may_register-CertifiedFor :
    (require : Bool) (c : Connection) (hello : Hello) (o : Option Bytes)
    → peer_cert_tenant c.peer ≡ o
    → may_register o hello require ≡ true
    → CertifiedFor require hello.tenant c
unfolding may_register CertifiedFor
may_register-CertifiedFor require c hello none e h = inr (e, ground arith)
may_register-CertifiedFor require c hello (some t) e h =
    inl (rw (← ((beq_iff t hello.tenant).0 h)) e)

pub put-AreCertified :
    (require : Bool) (tenant app : Bytes) (c : Connection) (table : Dict Bytes Connection)
    → Slashless tenant
    → CertifiedFor require tenant c
    → AreCertified require table
    → AreCertified require (put (key tenant app) c table)
unfolding AreCertified
put-AreCertified require tenant app c table plain cert h k found g =
    elim (Bool-cases (beq (key tenant app) k)) [
      | inl b ↦
          let this : get k (put (key tenant app) c table) ≡ some c =
            ground (arith, get-put (key tenant app) k c table) in
          let same : c ≡ found = some-injective c found (rw (← this) g) in
          (tenant, app, plain, sym ((beq_iff (key tenant app) k).0 b), rw (← same) cert)
      | inr b ↦
          let that : get k (put (key tenant app) c table) ≡ get k table =
            ground (arith, get-put (key tenant app) k c table) in
          h k found (rw (← that) g)
    ]

del-AreCertified :
    (require : Bool) (k : Bytes) (table : Dict Bytes Connection)
    → AreCertified require table
    → AreCertified require (del k table)
unfolding AreCertified
del-AreCertified require k table h j found g = elim (Bool-cases (beq k j)) [
  | inl e ↦ ground (arith, get-del k j table)
  | inr e ↦
      let that : get j (del k table) ≡ get j table = ground (arith, get-del k j table) in
      h j found (rw (← that) g)
]

pub without-AreCertified :
    (require : Bool) (k : Bytes) (c : Connection) (o : Option Connection)
    (table : Dict Bytes Connection)
    → AreCertified require table
    → AreCertified require (without k c o table)
unfolding without
without-AreCertified require k c none table h = h
without-AreCertified require k c (some old) table h = elim (Bool-cases (old.number == c.number)) [
  | inl b ↦ rw b (del-AreCertified require k table h)
  | inr b ↦ rw b h
]

-- Two registries with the same routes.
abbrev pub SameRoutes : Registry → Registry → Type 0
SameRoutes s t =
    (s.routes ≡ t.routes)
    × (s.stream_routes ≡ t.stream_routes)
    × (s.require_cert_tenant ≡ t.require_cert_tenant)

pub close_mux-same :
    (c : Connection) (o : Option MuxConn) (s : Registry) → SameRoutes (close_mux_of c o s) s
unfolding close_mux_of
close_mux-same c none s = (refl, refl, refl)
close_mux-same c (some m) s = (refl, refl, refl)

pub close_old_mux-same : (o : Option Connection) (s : Registry) → SameRoutes (close_old_mux o s) s
unfolding close_old_mux close_mux
close_old_mux-same none s = (refl, refl, refl)
close_old_mux-same (some c) s = close_mux-same c (get c.number s.muxes) s

pub close_old-same : (o : Option Connection) (s : Registry) → SameRoutes (close_old o s) s
unfolding close_old close_connection
close_old-same none s = (refl, refl, refl)
close_old-same (some c) s = (refl, refl, refl)
