-- ===== src/Revtunnel/Owners.antt =====
-- internal/revtunnel/revtunnel.go: which connections a tenant's streams and requests reach.
use sase.Prelude.{ℕ, ◌≡◌, refl, Bool, List, [], ◌∷◌, Option, none, some, All}
use sase.Prelude.Bytes.{Bytes}
use sase.Prelude.Dict.{Dict, get, put, bytes_key, nat_key}
use sase.Prelude.Result.{Result, ok, err}
use sase.Revtunnel.Wire.{MuxError}
use sase.Revtunnel.Mux.{MuxConn, open_stream}
use sase.Revtunnel.Registry.{
  Hello, Request, Response, TunnelError, Connection, Registry, new_registry, key, register,
  serve_stream, stream_opened, open_on, open_at, open_tenant_stream, answered, round_trip_at,
  round_trip, next_id_of,
}
use sase.Revtunnel.Tenants.{Slashless, key-tenant, CertifiedFor, AreCertified, RoutesCertified}
use sase.Revtunnel.Routing.{
  NamesPlain, same-RoutesCertified, register-RoutesCertified, evict-RoutesCertified,
  serve_mux-RoutesCertified, open_at-RoutesCertified,
}

-- What happens to a registry: a connection comes with its Hello, the loop of a stream-mode connector
-- reads to its end, and the clients of a tenant open streams and make round trips.
pub data Event : Type 0 where
  connected : Connection → Option Hello → Event
  served : Hello → Connection → Bytes → Bytes → Event
  opened : Bytes → Bytes → Bytes → Event
  requested : Bytes → Bytes → Request → Event

-- The tenants under which connectors register have no slash in their names.
abbrev pub IsPlain : Event → Type 0
IsPlain (connected c o) = NamesPlain o
IsPlain (served hello c buffered b) = Unit
IsPlain (opened tenant app dst) = Unit
IsPlain (requested tenant app req) = Unit

-- An answer over a connection is over one that is certified for the tenant.
abbrev pub FromOwn : {R : Type 0} → Bool → Bytes → Result TunnelError (Connection × R) → Type 0
FromOwn require tenant (err e) = Unit
FromOwn require tenant (ok (c, r)) = CertifiedFor require tenant c

routed-CertifiedFor :
    (require : Bool) (tenant app : Bytes) (c : Connection) (table : Dict Bytes Connection)
    → Slashless tenant
    → AreCertified require table
    → get (key tenant app) table ≡ some c
    → CertifiedFor require tenant c
unfolding AreCertified
routed-CertifiedFor require tenant app c table plain h g =
    let (owner, its_app, owner_plain, e, cert) = h (key tenant app) c g in
    rw (key-tenant tenant owner app its_app plain owner_plain e) cert

stream_opened-FromOwn :
    (require : Bool) (tenant : Bytes) (c : Connection) (r : Result MuxError ℕ) (m : MuxConn)
    (s : Registry)
    → CertifiedFor require tenant c
    → FromOwn require tenant (stream_opened c (r, m) s).0
unfolding stream_opened
stream_opened-FromOwn require tenant c (ok r) m s h = h
stream_opened-FromOwn require tenant c (err e) m s h = tt

open_at-FromOwn :
    (require : Bool) (tenant dst : Bytes) (o : Option Connection) (s : Registry)
    → ((c : Connection) → o ≡ some c → CertifiedFor require tenant c)
    → FromOwn require tenant (open_at dst o s).0
unfolding open_at open_on
open_at-FromOwn require tenant dst none s h = tt
open_at-FromOwn require tenant dst (some c) s h =
    elim (get c.number s.muxes) as (λ o. FromOwn require tenant (open_on c dst o s).0) [
      | none ↦ tt
      | some m ↦
          stream_opened-FromOwn require tenant c (open_stream dst m).0 (open_stream dst m).1 s
            (h c refl)
    ]

new_registry-RoutesCertified : (require : Bool) → RoutesCertified require (new_registry require)
unfolding new_registry RoutesCertified AreCertified get
new_registry-RoutesCertified require = (λ k c g. absurd (cc), λ k c g. absurd (cc), refl)

module _ (exchange : Connection → Request → Result TunnelError Response) where
  answered-RoutesCertified :
      (require : Bool) (tenant app : Bytes) (c : Connection) (r : Result TunnelError Response)
      (s : Registry)
      → RoutesCertified require s
      → RoutesCertified require (answered exchange tenant app c r s).1
  unfolding answered
  answered-RoutesCertified require tenant app c (err e) s h =
      evict-RoutesCertified require tenant app c s h
  answered-RoutesCertified require tenant app c (ok response) s h = h

  answered-FromOwn :
      (require : Bool) (tenant app : Bytes) (c : Connection) (r : Result TunnelError Response)
      (s : Registry)
      → CertifiedFor require tenant c
      → FromOwn require tenant (answered exchange tenant app c r s).0
  unfolding answered
  answered-FromOwn require tenant app c (err e) s h = tt
  answered-FromOwn require tenant app c (ok response) s h = h

  round_trip_at-RoutesCertified :
      (require : Bool) (tenant app : Bytes) (o : Option Connection) (req : Request) (s : Registry)
      → RoutesCertified require s
      → RoutesCertified require (round_trip_at exchange tenant app o req s).1
  unfolding round_trip_at
  round_trip_at-RoutesCertified require tenant app none req s h = h
  round_trip_at-RoutesCertified require tenant app (some c) req s h =
      let id = next_id_of (get c.number s.next_ids) in
      let s' = record s { next_ids = put c.number id s.next_ids } in
      answered-RoutesCertified require tenant app c (exchange c (record req { id = id })) s'
        (same-RoutesCertified require s' s (refl, refl, refl) h)

  round_trip_at-FromOwn :
      (require : Bool) (tenant app : Bytes) (o : Option Connection) (req : Request) (s : Registry)
      → ((c : Connection) → o ≡ some c → CertifiedFor require tenant c)
      → FromOwn require tenant (round_trip_at exchange tenant app o req s).0
  unfolding round_trip_at
  round_trip_at-FromOwn require tenant app none req s h = tt
  round_trip_at-FromOwn require tenant app (some c) req s h =
      let id = next_id_of (get c.number s.next_ids) in
      answered-FromOwn require tenant app c (exchange c (record req { id = id })) _ (h c refl)

  unfoldable pub step : Event → Registry → Registry
  step (connected c o) s = register c o s
  step (served hello c buffered b) s = serve_stream hello c buffered b s
  step (opened tenant app dst) s = (open_tenant_stream tenant app dst s).1
  step (requested tenant app req) s = (round_trip exchange tenant app req s).1

  unfoldable pub run : List Event → Registry → Registry
  run [] s = s
  run (event ∷ events) s = run events (step event s)

  step-RoutesCertified :
      (require : Bool) (event : Event) (s : Registry)
      → IsPlain event
      → RoutesCertified require s
      → RoutesCertified require (step event s)
  unfolding step serve_stream open_tenant_stream round_trip
  step-RoutesCertified require (connected c o) s plain h =
      register-RoutesCertified require c o s plain h
  step-RoutesCertified require (served hello c buffered b) s plain h =
      serve_mux-RoutesCertified require hello c _ (get c.number s.muxes) s h
  step-RoutesCertified require (opened tenant app dst) s plain h =
      open_at-RoutesCertified require dst (get (key tenant app) s.stream_routes) s h
  step-RoutesCertified require (requested tenant app req) s plain h =
      round_trip_at-RoutesCertified require tenant app (get (key tenant app) s.routes) req s h

  run-RoutesCertified :
      (require : Bool) (events : List Event) (s : Registry)
      → All IsPlain events
      → RoutesCertified require s
      → RoutesCertified require (run events s)
  unfolding run
  run-RoutesCertified require [] s plain h = h
  run-RoutesCertified require (event ∷ events) s plain h =
      run-RoutesCertified require events (step event s) plain.1
        (step-RoutesCertified require event s plain.0 h)

  -- Whatever registrations, reads, streams and requests came before, from an empty registry: the
  -- connections on which OpenStream and RoundTrip answer for a tenant have that tenant in their
  -- certificate, or no tenant there if the registry does not require one. No tenant has a slash in
  -- its name: neither this one nor those under which connectors register.
  pub run-FromOwn :
      (require : Bool) (events : List Event) (tenant app dst : Bytes) (req : Request)
      → All IsPlain events
      → Slashless tenant
      → FromOwn require tenant
          (open_tenant_stream tenant app dst (run events (new_registry require))).0
        × FromOwn require tenant
            (round_trip exchange tenant app req (run events (new_registry require))).0
  unfolding open_tenant_stream round_trip RoutesCertified
  run-FromOwn require events tenant app dst req plain own =
      let s = run events (new_registry require) in
      let h =
        run-RoutesCertified require events (new_registry require) plain
          (new_registry-RoutesCertified require) in
      (
        open_at-FromOwn require tenant dst (get (key tenant app) s.stream_routes) s
            (λ c g. routed-CertifiedFor require tenant app c s.stream_routes own h.1 g),
        round_trip_at-FromOwn require tenant app (get (key tenant app) s.routes) req s
            (λ c g. routed-CertifiedFor require tenant app c s.routes own h.0 g),
      )
