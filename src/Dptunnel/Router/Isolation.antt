-- ===== src/Dptunnel/Router/Isolation.antt =====
-- Tenants are kept apart: what a datagram leads to goes to sites of its sender's tenant only.
use mathlib.Core.Path.{subst}
use sase.Prelude.{
  ◌≡◌, refl, Bool-cases, Option-cases, inl, inr, List, [], ◌∷◌, Option, none, some, All, Any,
  All-append, All-imp, map,
}
use sase.Prelude.Bytes.{Bytes}
use sase.Prelude.Dict.{get, bytes_key}
use sase.Dptunnel.Lpm.Values.{Each}
use sase.Dptunnel.Packet.{Packet5Tuple, parse_5tuple}
use sase.Dptunnel.Session.{Session, SealResult, sent, refused, seal, open_datagram}
use sase.Dptunnel.Frame.{Result, ok, err}
use sase.Dptunnel.Router.{
  SiteName, SiteEntry, Router, Outbound, Drop, sites_of, find_site, set_session, route, outbounds,
  seal_to, same_name, forward_to, forward_tuple, denied, no_session, to_addr, forward, forward_all,
  after_open, handle_from, handle,
}
use sase.Dptunnel.Router.Routes.{IsDerived, set_session-IsDerived}
use sase.Dptunnel.Router.Reach.{InTenant, route-tenant, All-find_site, All-set_session}

Sent_frames :
    (A : Bytes → Type 0) (addr : Bytes) (frames : List Bytes)
    → A addr
    → All (λ o. A o.addr) (map (to_addr addr) frames)
Sent_frames A addr [] a = tt
Sent_frames A addr (f ∷ fs) a = (a, Sent_frames A addr fs a)

-- The addresses of a set, and the routers all of whose sites of one tenant have theirs in it.
module _ (t : Bytes) (A : Bytes → Type 0) where
  record Kept (r : Router) : Type 0 where
    derived : IsDerived r
    own : InTenant r
    known : All (λ e. A e.addr) (sites_of r t)

  Kept-set_session : (r : Router) (n : SiteName) (s : Session) → Kept r → Kept (set_session r n s)
  unfolding InTenant
  Kept-set_session r n s k = record {
    derived = set_session-IsDerived r n s k.derived;
    own = λ u. All-set_session (λ e. e.tenant ≡ u) r n s u (λ e h. h) (k.own u);
    known = All-set_session (λ e. A e.addr) r n s t (λ e h. h) k.known;
  }

  abbrev Sent : List Outbound → Type 0
  Sent out = All (λ o. A o.addr) out

  Sent-outbounds : (addr : Bytes) (result : SealResult) → A addr → Sent (outbounds addr result).0
  unfolding outbounds
  Sent-outbounds addr (sent frames) a = Sent_frames A addr frames a
  Sent-outbounds addr (refused e) a = tt

  abbrev Step : Router × List Outbound × List Drop → Type 0
  Step (r, out, drops) = Kept r × Sent out

  Step-seal_to :
      (r : Router) (to : SiteName) (pkt : Bytes) (e : SiteEntry)
      → Kept r
      → A e.addr
      → Step (seal_to r to pkt e)
  unfolding seal_to
  Step-seal_to r to pkt e k a =
      (Kept-set_session r to _ k, Sent-outbounds e.addr (seal e.keys e.sess pkt).1 a)

  Step-forward_to :
      (r : Router) (from : SiteName) (pkt : Bytes) (o : Option SiteName)
      → Kept r
      → Each (λ n. n.tenant ≡ t) o
      → Step (forward_to r from pkt o)
  unfolding forward_to
  Step-forward_to r from pkt none k h = (k, tt)
  Step-forward_to r from pkt (some to) k h = elim (Bool-cases (same_name to from)) [
    | inl b ↦ rw b (k, tt)
    | inr b ↦ elim (Option-cases (find_site to.site (sites_of r to.tenant))) [
      | inl e ↦ rw (b, e) (k, tt)
      | inr (x, e) ↦
          rw (b, e)
            (Step-seal_to r to pkt x k
              (All-find_site (λ y. A y.addr) to.site (sites_of r to.tenant) x (rw h k.known) e))
    ]
  ]

  Step-forward_tuple :
      (r : Router) (from : SiteName) (pkt : Bytes) (o : Option Packet5Tuple)
      → from.tenant ≡ t
      → Kept r
      → Step (forward_tuple r from pkt o)
  unfolding forward_tuple
  Step-forward_tuple r from pkt none own k = (k, tt)
  Step-forward_tuple r from pkt (some x) own k = elim (Bool-cases (denied r.fw from.tenant x)) [
    | inl b ↦ rw b (k, tt)
    | inr b ↦ rw b (
        Step-forward_to r from pkt (route r from.tenant x.dst_ip) k (
          subst (λ u. Each (λ n. n.tenant ≡ u) (route r from.tenant x.dst_ip)) own
            (route-tenant r from.tenant x.dst_ip k.derived k.own)))
  ]

  Step-forward_all :
      (r : Router) (from : SiteName) (pkts : List Bytes)
      → from.tenant ≡ t
      → Kept r
      → Step (forward_all r from pkts)
  unfolding forward_all forward
  Step-forward_all r from [] own k = (k, tt)
  Step-forward_all r from (p ∷ ps) own k =
      let (k', out) = Step-forward_tuple r from p (parse_5tuple p) own k in
      let (k'', out') = Step-forward_all (forward r from p).0 from ps own k' in
      (k'', All-append (λ o. A o.addr) _ _ out out')

  Step-after_open :
      (r : Router) (from : SiteName) (result : Result (List Bytes))
      → from.tenant ≡ t
      → Kept r
      → Step (after_open r from result)
  unfolding after_open
  Step-after_open r from (err e) own k = (k, tt)
  Step-after_open r from (ok inners) own k = Step-forward_all r from inners own k

  Step-handle_from :
      (r : Router) (datagram : Bytes) (from : SiteName)
      → from.tenant ≡ t
      → Kept r
      → Step (handle_from r datagram from)
  unfolding handle_from
  Step-handle_from r datagram from own k =
      elim (Option-cases (find_site from.site (sites_of r from.tenant))) [
        | inl e ↦ rw (e, handle_from) (k, tt)
        | inr (x, e) ↦
            rw (e, handle_from)
              (Step-after_open _ from (open_datagram x.keys x.sess datagram).1 own
                (Kept-set_session r from (open_datagram x.keys x.sess datagram).0 k))
      ]

addr_listed : (es : List SiteEntry) → All (λ e. Any (λ x. x.addr ≡ e.addr) es) es
addr_listed [] = tt
addr_listed (e ∷ es) = (inl refl, All-imp _ _ (λ x h. inr h) es (addr_listed es))

-- What a datagram of a registered source leads to is sent to addresses of sites of the source's
-- tenant only, and the router keeps its tables derived and its sites under their tenants.
pub handle-isolated :
    (r : Router) (datagram src : Bytes) (from : SiteName)
    → IsDerived r
    → InTenant r
    → get src r.by_src ≡ some from
    → let (r', out, drops) = handle r datagram src in
      All (λ o. Any (λ e. e.addr ≡ o.addr) (sites_of r from.tenant)) out
      × IsDerived r'
      × InTenant r'
unfolding handle
handle-isolated r datagram src from d own h =
    let (k, out) =
      Step-handle_from from.tenant (λ a. Any (λ e. e.addr ≡ a) (sites_of r from.tenant)) r datagram
        from refl
        (record { derived = d; own = own; known = addr_listed (sites_of r from.tenant) }) in
    rw (h, handle) (out, k.derived, k.own)

-- A datagram of an unknown source changes nothing and is dropped.
pub handle-unknown :
    (r : Router) (datagram src : Bytes)
    → get src r.by_src ≡ none
    → handle r datagram src ≡ (r, [], no_session ∷ [])
unfolding handle
handle-unknown r datagram src h = rw (h, handle) refl
