-- ===== src/Revtunnel/Routing.antt =====
-- internal/revtunnel/revtunnel.go: the tables of routes after each operation of the registry.
use sase.Prelude.{ℕ, suc, length, refl, Bool, Bool-cases, inl, inr, ◌∷◌, Option, none, some}
use sase.Prelude.Bytes.{Bytes, beq}
use sase.Prelude.Dict.{get, put, bytes_key, nat_key}
use sase.Prelude.Result.{Result, ok, err}
use sase.Revtunnel.Wire.{MuxError}
use sase.Revtunnel.Mux.{MuxConn, LoopEnd, ended, waiting, no_fuel, read_loop, open_stream}
use sase.Revtunnel.Registry.{
  Hello, Connection, Registry, mode_stream, key, peer_cert_tenant, close_connection, close_mux,
  may_register, register_stream, register_http, register, without, evict_stream, evict, loop_done,
  serve_mux, stream_opened, open_on, open_at,
}
use sase.Revtunnel.Tenants.{
  Slashless, CertifiedFor, RoutesCertified, may_register-CertifiedFor, put-AreCertified,
  without-AreCertified, SameRoutes, close_mux-same, close_old_mux-same, close_old-same,
}

-- The tenant that a Hello names, if there is one, has no slash.
abbrev pub NamesPlain : Option Hello → Type 0
NamesPlain none = Unit
NamesPlain (some hello) = Slashless hello.tenant

module _ (require : Bool) where
  pub same-RoutesCertified :
      (s t : Registry) → SameRoutes s t → RoutesCertified require t → RoutesCertified require s
  unfolding RoutesCertified
  same-RoutesCertified s t e h = rw (e.0, e.1, e.2) h

  register_stream-RoutesCertified :
      (hello : Hello) (c : Connection) (s : Registry)
      → Slashless hello.tenant
      → CertifiedFor require hello.tenant c
      → RoutesCertified require s
      → RoutesCertified require (register_stream hello c s)
  unfolding register_stream RoutesCertified
  register_stream-RoutesCertified hello c s plain cert h =
      let k = key hello.tenant hello.app in
      let same = close_old_mux-same (get k s.stream_routes) s in
      rw (same.0, same.1, same.2)
        (h.0, put-AreCertified require hello.tenant hello.app c s.stream_routes plain cert h.1, h.2)

  register_http-RoutesCertified :
      (hello : Hello) (c : Connection) (s : Registry)
      → Slashless hello.tenant
      → CertifiedFor require hello.tenant c
      → RoutesCertified require s
      → RoutesCertified require (register_http hello c s)
  unfolding register_http RoutesCertified
  register_http-RoutesCertified hello c s plain cert h =
      let k = key hello.tenant hello.app in
      let same = close_old-same (get k s.routes) s in
      rw (same.0, same.1, same.2)
        (put-AreCertified require hello.tenant hello.app c s.routes plain cert h.0, h.1, h.2)

  close-RoutesCertified :
      (c : Connection) (s : Registry)
      → RoutesCertified require s
      → RoutesCertified require (close_connection c s)
  unfolding close_connection
  close-RoutesCertified c s h =
      same-RoutesCertified (record s { closed = c.number ∷ s.closed }) s (refl, refl, refl) h

  pub register-RoutesCertified :
      (c : Connection) (o : Option Hello) (s : Registry)
      → NamesPlain o
      → RoutesCertified require s
      → RoutesCertified require (register c o s)
  unfolding register RoutesCertified
  register-RoutesCertified c none s plain h = close-RoutesCertified c s h
  register-RoutesCertified c (some hello) s plain h =
      let tenant = peer_cert_tenant c.peer in
      elim (Bool-cases (may_register tenant hello s.require_cert_tenant)) [
        | inr bad ↦ rw bad (close-RoutesCertified c s h)
        | inl may ↦
            let cert : CertifiedFor require hello.tenant c =
              rw (← h.2)
                (may_register-CertifiedFor s.require_cert_tenant c hello tenant refl may) in
            elim (Bool-cases (beq hello.mode mode_stream)) [
              | inl b ↦ rw (may, b) (register_stream-RoutesCertified hello c s plain cert h)
              | inr b ↦ rw (may, b) (register_http-RoutesCertified hello c s plain cert h)
            ]
      ]

  evict_stream-RoutesCertified :
      (tenant app : Bytes) (c : Connection) (s : Registry)
      → RoutesCertified require s
      → RoutesCertified require (evict_stream tenant app c s)
  unfolding evict_stream close_mux RoutesCertified
  evict_stream-RoutesCertified tenant app c s h =
      let k = key tenant app in
      let found = get k s.stream_routes in
      let s' = record s { stream_routes = without k c found s.stream_routes } in
      let same = close_mux-same c (get c.number s.muxes) s' in
      rw (same.0, same.1, same.2)
        (h.0, without-AreCertified require k c found s.stream_routes h.1, h.2)

  pub evict-RoutesCertified :
      (tenant app : Bytes) (c : Connection) (s : Registry)
      → RoutesCertified require s
      → RoutesCertified require (evict tenant app c s)
  unfolding evict close_connection RoutesCertified
  evict-RoutesCertified tenant app c s h =
      let k = key tenant app in
      (without-AreCertified require k c (get k s.routes) s.routes h.0, h.1, h.2)

  set_mux-RoutesCertified :
      (c : Connection) (m : MuxConn) (s : Registry)
      → RoutesCertified require s
      → RoutesCertified require (record s { muxes = put c.number m s.muxes })
  set_mux-RoutesCertified c m s h =
      same-RoutesCertified (record s { muxes = put c.number m s.muxes }) s (refl, refl, refl) h

  loop_done-RoutesCertified :
      (hello : Hello) (c : Connection) (end : LoopEnd) (m : MuxConn) (s : Registry)
      → RoutesCertified require s
      → RoutesCertified require (loop_done hello c (end, m) s)
  unfolding loop_done
  loop_done-RoutesCertified hello c ended m s h =
      evict_stream-RoutesCertified hello.tenant hello.app c _ (set_mux-RoutesCertified c m s h)
  loop_done-RoutesCertified hello c (waiting b) m s h = set_mux-RoutesCertified c m s h
  loop_done-RoutesCertified hello c no_fuel m s h = set_mux-RoutesCertified c m s h

  pub serve_mux-RoutesCertified :
      (hello : Hello) (c : Connection) (b : Bytes) (o : Option MuxConn) (s : Registry)
      → RoutesCertified require s
      → RoutesCertified require (serve_mux hello c b o s)
  unfolding serve_mux
  serve_mux-RoutesCertified hello c b none s h = h
  serve_mux-RoutesCertified hello c b (some m) s h =
      let (end, m') = read_loop (suc (length b)) b m in loop_done-RoutesCertified hello c end m' s h

  stream_opened-RoutesCertified :
      (c : Connection) (r : Result MuxError ℕ) (m : MuxConn) (s : Registry)
      → RoutesCertified require s
      → RoutesCertified require (stream_opened c (r, m) s).1
  unfolding stream_opened
  stream_opened-RoutesCertified c (ok r) m s h = set_mux-RoutesCertified c m s h
  stream_opened-RoutesCertified c (err e) m s h = set_mux-RoutesCertified c m s h

  open_on-RoutesCertified :
      (c : Connection) (dst : Bytes) (o : Option MuxConn) (s : Registry)
      → RoutesCertified require s
      → RoutesCertified require (open_on c dst o s).1
  unfolding open_on
  open_on-RoutesCertified c dst none s h = h
  open_on-RoutesCertified c dst (some m) s h =
      stream_opened-RoutesCertified c (open_stream dst m).0 (open_stream dst m).1 s h

  pub open_at-RoutesCertified :
      (dst : Bytes) (o : Option Connection) (s : Registry)
      → RoutesCertified require s
      → RoutesCertified require (open_at dst o s).1
  unfolding open_at
  open_at-RoutesCertified dst none s h = h
  open_at-RoutesCertified dst (some c) s h =
      open_on-RoutesCertified c dst (get c.number s.muxes) s h
