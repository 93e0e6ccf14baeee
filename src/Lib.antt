-- ===== src/Lib.antt =====
-- Verification of the SASE platform's decision and data-plane logic.
--
-- The platform has a control plane (policies, risk, administration), points of presence (policy
-- enforcement, firewall, web gateway, DLP, packet tunnel) and agents on devices. Policies are
-- compiled to bundles on the control plane and enforced request by request at a point of presence;
-- packets travel between sites through sealed sessions that the tunnel's router relays; the risk
-- engine watches signals and revokes sessions, which the points of presence learn as lists.
--
-- Parts and files (paths from the repository's root):
--   Dptunnel: internal/dptunnel. Lpm is lpm.go (lpmTrie), Replay is replay.go (replayWindow.accept),
--     Frame is frame.go, Fec is fec.go, Session is session.go (Seal is seal, Open is open_datagram),
--     Router and Packet are router.go (Handle is handle, parse5Tuple is parse_5tuple).
--   Fw, Swg, Dlp: internal/fw, internal/swg and internal/dlp with their stores of internal/pop.
--   Policy: Xdsv1 is api/xdsv1/contract.go, Compiler is internal/policy/compiler/compiler.go, Pep is
--     internal/pop/pep/pep.go.
--   Authz: internal/authz/authz.go. Oidc: internal/oidc/state.go.
--   Risk: internal/risk (observe, assessLocked), with Revocation for internal/pop/revocation.go.
--   Ztnaterm: internal/pop/ztnaterm/appresolver.go. Agentd: flowmgr.go and popselect.go of
--     internal/agentd.
--   Xds: internal/xds. Auth is subauth.go; Resources, Server and Requests are server.go (readSWG is
--     read_swg, onDeltaRequest is on_delta_request, loadTenant is load_tenant); Client is
--     internal/pop/client.go.
--   Revtunnel: internal/revtunnel/stream.go (writeFrame and readLoop over Wire, stream over Stream,
--     muxConn over Mux), and the registry of internal/revtunnel/revtunnel.go over Registry (OpenStream
--     is open_tenant_stream, RoundTrip is round_trip).
--   Linkmon: internal/linkmon/linkmon.go. Hub: internal/control/hub.go. Csrf: internal/csrf/csrf.go.
--   Cred: internal/cred/cred.go (Issue is issue, Verify is verify).
--   Prelude: shared types and lemmas. Net: what the code uses of Go's package net.
--
-- State is passed explicitly: a method is a function from the receiver's state to the new state and
-- the results; a mutex makes a call one step. Go maps are association lists (Prelude.Dict), strings
-- and byte slices lists of bytes, the signed int a type of its own (Prelude.Int); unsigned integers
-- are natural numbers with their wrap-around written out. sort.SliceStable is an insertion sort
-- (Prelude.Sort), which any stable sort agrees with. Clocks and random values are arguments.
--
-- Parameters, never defined here: net.ParseCIDR, package regexp, the AEAD ciphers, SHA-256 over JSON,
-- the verifier of tokens, the probe of round trips, strings.TrimSpace and strings.ToLower, url.Parse,
-- the caches of go-control-plane, the database's answers, JSON, base64 and signatures of credentials,
-- floating-point numbers. Laws are asked of three: that opening undoes sealing, that a cache looks up
-- what was put and not deleted, and that decoding undoes encoding and signatures are accepted, in one
-- theorem for what was signed only.
--
-- Streams of the reverse tunnel live in a heap, since callers hold streams that the table has dropped;
-- a call that would block says so and is tried again. The xDS server's calls are steps of a relation,
-- in which the environment chooses the order.
--
-- Bounds: the loops of the tries run over an address's bits, and the eviction of parity blocks over
-- the number of blocks kept, of which each round deletes one. The tunnel's reading loop has the
-- number of bytes to come as fuel and its Write the number of bytes given. All other loops follow a
-- list.
--
-- Not modelled: sockets, HTTP and gRPC transport, timers, SQL services and their handlers, the rate
-- limiter, key agreement and the issue of certificates, generated code.
pub mod Prelude
pub mod Net
pub mod Fw
pub mod Swg
pub mod Dlp
pub mod Dptunnel
pub mod Policy
pub mod Authz
pub mod Risk
pub mod Ztnaterm
pub mod Oidc
pub mod Agentd
pub mod Xds
pub mod Revtunnel
pub mod Linkmon
pub mod Csrf
pub mod Hub
pub mod Cred
