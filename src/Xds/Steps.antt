-- ===== src/Xds/Steps.antt =====
-- The server's calls as steps, in any order, and what holds of every server that they reach.
use sase.Prelude.{ℕ, ◌≡◌, refl, Bool, Option, none, List}
use sase.Prelude.Bytes.{Bytes}
use sase.Prelude.Dict.{get, Holds, nat_key, bytes_key}
use sase.Xds.Auth.{Leaf}
use sase.Xds.Resources.{Database}
use sase.Xds.Server.{
  CacheApi, Server, new_server, set_strict_sub_auth, on_delta_stream_open, on_delta_stream_closed,
}
use sase.Xds.Requests.{
  DeltaRequest, on_delta_request, on_notify, on_revocation_notify, on_swg_notify, on_site_notify,
  on_fw_notify, on_dlp_notify, reconcile_all, tenants_of,
}
use sase.Xds.Unchanged.{
  SameSubs, load_tenant-same, load_revocations-same, load_swg-same, load_fw-same, load_dlp-same,
  load_sites-same, reconcile-same,
}
use sase.Xds.Counts.{subscribers, positive}
use sase.Xds.Tables.{Counted}
use sase.Xds.Accounting.{open-Counted, closed-Counted, request-Counted}

-- What the database announces a change of.
pub data Notice : Type 0 where
  policy_notice revocation_notice swg_notice site_notice fw_notice dlp_notice : Notice

module _ {C : Type 0} (api : CacheApi C) where
  unfoldable pub notify : Notice → Database → Bytes → Server C → Server C
  notify policy_notice db tid s = on_notify api db tid s
  notify revocation_notice db tid s = on_revocation_notify api db tid s
  notify swg_notice db tid s = on_swg_notify api db tid s
  notify site_notice db tid s = on_site_notify api db tid s
  notify fw_notice db tid s = on_fw_notify api db tid s
  notify dlp_notice db tid s = on_dlp_notify api db tid s

  -- A stream's identifier is new when it opens; all else may come at any time.
  pub data Step (s : Server C) : Server C → Type 0 where
    opened :
        (id : ℕ) (peer : Option (List Leaf))
        → get id s.streams ≡ none
        → Step s (on_delta_stream_open api id peer s)
    ended : (id : ℕ) → Step s (on_delta_stream_closed api id s)
    requested :
        (db : Database) (id : ℕ) (req : DeltaRequest) → Step s (on_delta_request api db id req s).1
    notified : (notice : Notice) (db : Database) (tid : Bytes) → Step s (notify notice db tid s)
    reconciled : (db : Database) → Step s (reconcile_all api db s)
    strictness : (strict : Bool) → Step s (set_strict_sub_auth api strict s)

  pub data Reach (s : Server C) : Server C → Type 0 where
    here : Reach s s
    next : {t u : Server C} → Reach s t → Step t u → Reach s u

  pub notify-same :
      (notice : Notice) (db : Database) (tid : Bytes) (s : Server C)
      → SameSubs (notify notice db tid s) s
  unfolding notify on_notify on_revocation_notify on_swg_notify on_site_notify on_fw_notify
      on_dlp_notify
  notify-same policy_notice db tid s = load_tenant-same api db tid s
  notify-same revocation_notice db tid s = load_revocations-same api db tid s
  notify-same swg_notice db tid s = load_swg-same api db tid s
  notify-same site_notice db tid s = load_sites-same api db tid s
  notify-same fw_notice db tid s = load_fw-same api db tid s
  notify-same dlp_notice db tid s = load_dlp-same api db tid s

  pub reconcile_all-same : (db : Database) (s : Server C) → SameSubs (reconcile_all api db s) s
  unfolding reconcile_all
  reconcile_all-same db s = reconcile-same api db (tenants_of s.tenant_refs) s

  keep_counts :
      (s t : Server C)
      → SameSubs t s
      → Counted s.streams s.tenant_refs
      → Counted t.streams t.tenant_refs
  unfolding SameSubs
  keep_counts s t m h = rw (m.0, m.1) h

  Step-Counted :
      (s : Server C) {t : Server C}
      → Step s t
      → Counted s.streams s.tenant_refs
      → Counted t.streams t.tenant_refs
  unfolding set_strict_sub_auth
  Step-Counted s (opened id peer e) h = open-Counted api id peer s e h
  Step-Counted s (ended id) h = closed-Counted api id s h
  Step-Counted s (requested db id req) h = request-Counted api db id req s h
  Step-Counted s (notified notice db tid) h =
      keep_counts s (notify notice db tid s) (notify-same notice db tid s) h
  Step-Counted s (reconciled db) h =
      keep_counts s (reconcile_all api db s) (reconcile_all-same db s) h
  Step-Counted s (strictness strict) h = h

  Reach-Counted :
      {s t : Server C}
      → Counted s.streams s.tenant_refs
      → Reach s t
      → Counted t.streams t.tenant_refs
  Reach-Counted h here = h
  Reach-Counted h (next {t} r st) = Step-Counted t st (Reach-Counted h r)

  -- Whatever calls came since the server was made, in whatever order, a tenant's count is the number
  -- of open streams that subscribe to it, and a tenant without any is counted no longer.
  pub Reach-counts :
      (s : Server C) (tid : Bytes)
      → Reach (new_server api) s
      → get tid s.tenant_refs ≡ positive (subscribers tid s.streams)
  unfolding Counted new_server Holds subscribers positive get
  Reach-counts s tid r =
      let start : Counted (new_server api).streams (new_server api).tenant_refs =
        (tt, λ id sa e. absurd (cc), λ t. refl) in
      (Reach-Counted start r).2 tid
