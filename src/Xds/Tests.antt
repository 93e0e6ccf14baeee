-- ===== src/Xds/Tests.antt =====
-- The xDS server on concrete streams, with caches that are maps and a small database.
use sase.Prelude.{◌≡◌, ◌↔◌, refl, true, none, some, [], ◌∷◌, All, is_empty}
use mathlib.Core.Option.{some-injective}
use sase.Prelude.Bytes.{Bytes, bytes, beq, has_prefix}
use sase.Prelude.Dict.{Dict, get, put, del, get-put, get-del, nat_key, bytes_key}
use sase.Prelude.Result.{ok, err}
use sase.Xds.Auth.{
  StreamAuth, Leaf, is_some, named, authorize_subscription, or_empty, peer_cert_identity,
  role_device,
}
use sase.Xds.Resources.{
  swg, rank, same_kind, Resource, swg_rule_set, Tx, Rows, no_rows, Database, SwgRow, or_error,
  and_commit, in_tx_ro, scan_rows, read_rows, read_swg,
}
use sase.Xds.Server.{
  CacheApi, Server, resource_name, tenant_from_name, with_stream, ref_count, new_server, pushed,
  push, push_list, load_swg, on_delta_stream_open, on_delta_stream_closed, registered, auth_for,
  record_ref,
}
use sase.Xds.Requests.{DeltaRequest, load, subscribe_all, on_delta_request, reconcile_all}
use sase.Xds.Unchanged.{SameSubs}
use sase.Xds.Counts.{subscribers, positive, bit}
use sase.Xds.Steps.{Reach, here, next, opened, requested, Reach-counts}
use sase.Xds.Isolation.{Reach-device_isolated}
use sase.Xds.Answers.{MaySubscribe, on_delta_request-ok_iff}
use sase.Xds.Eviction.{CacheLaws, closed-evicts}
use sase.Xds.Client.{subscribe_stream}
use sase.Xds.Protocol.{answers, subscribe_stream-accepted}
use sase.Xds.Reconcile.{list_resource, stored, reconcile_all-fresh}

-- A cache that is a map from names, and type URLs that are the kinds' names.
abbrev test_api : CacheApi (Dict Bytes Resource)
test_api = record {
  type_url = λ k. rank k ∷ [];
  new_cache = λ url. [];
  update_resource = λ name res c. some (put name res c);
  delete_resource = λ name c. del name c;
}

abbrev test_laws : CacheLaws test_api
test_laws = record {
  look_up = λ name c. get name c;
  look_up-delete = λ name other c. get-del name other c;
  update_ok = λ name res c. (put name res c, refl);
  look_up-update = λ name other res c d e.
      rw (← (some-injective (put name res c) d e)) (get-put name other res c);
}

abbrev empty_answer : {R : Type 0} → Bytes → Tx (Rows R)
empty_answer tid = record {
  begin_err = none;
  seen = record { query_err = none; scans = []; rows_err = none };
  commit_err = none;
}

abbrev test_row : SwgRow
test_row = record { kind = bytes "domain"; pattern = bytes "a.b"; action = bytes "block" }

abbrev test_db : Database
test_db = record {
  bundles = λ tid. record { begin_err = none; seen = err no_rows; commit_err = none };
  revocations = empty_answer;
  swg_rules = λ tid. record {
    begin_err = none;
    seen = record { query_err = none; scans = ok test_row ∷ []; rows_err = none };
    commit_err = none;
  };
  fw_rules = empty_answer;
  dlp_rules = empty_answer;
  sites = empty_answer;
}

abbrev test_leaf : Leaf
test_leaf = record { role = some role_device; tenant = some (bytes "t1") }

abbrev test_request : DeltaRequest
test_request = record { type_url = 2 ∷ []; resource_names_subscribe = bytes "tenant/t1" ∷ [] }

abbrev opened_server : Server (Dict Bytes Resource)
opened_server = on_delta_stream_open test_api 7 (some (test_leaf ∷ [])) (new_server test_api)

abbrev subscribed_server : Server (Dict Bytes Resource)
subscribed_server = (on_delta_request test_api test_db 7 test_request opened_server).1

abbrev opened_stream : StreamAuth
opened_stream = record {
  role = role_device;
  cert_tenant = bytes "t1";
  has_cert = true;
  tenants = [];
  named_types = [];
}

abbrev subscribed_stream : StreamAuth
subscribed_stream = record {
  role = role_device;
  cert_tenant = bytes "t1";
  has_cert = true;
  tenants = (bytes "t1", tt) ∷ [];
  named_types = (2 ∷ [], tt) ∷ [];
}

no_stream : get 7 (new_server test_api).streams ≡ none
unfolding get new_server
no_stream = refl

test-Reach : Reach test_api (new_server test_api) subscribed_server
test-Reach =
    next (next here (opened 7 (some (test_leaf ∷ [])) no_stream)) (requested test_db 7 test_request)

opened_entry : get 7 opened_server.streams ≡ some opened_stream
unfolding get put is_some named or_empty peer_cert_identity beq has_prefix authorize_subscription
    rank same_kind or_error and_commit in_tx_ro scan_rows read_rows read_swg resource_name
    tenant_from_name with_stream ref_count new_server pushed push push_list load_swg
    on_delta_stream_open registered auth_for record_ref load subscribe_all on_delta_request
opened_entry = refl

subscribed_entry : get 7 subscribed_server.streams ≡ some subscribed_stream
unfolding get put is_some named or_empty peer_cert_identity beq has_prefix authorize_subscription
    rank same_kind or_error and_commit in_tx_ro scan_rows read_rows read_swg resource_name
    tenant_from_name with_stream ref_count new_server pushed push push_list load_swg
    on_delta_stream_open registered auth_for record_ref load subscribe_all on_delta_request
subscribed_entry = refl

subscribed_named : named (bytes "t1") subscribed_stream.tenants ≡ true
unfolding named is_some get beq
subscribed_named = refl

one_subscriber : subscribers (bytes "t1") subscribed_server.streams ≡ 1
unfolding subscribers bit get put is_some named or_empty peer_cert_identity beq has_prefix
    authorize_subscription rank same_kind or_error and_commit in_tx_ro scan_rows read_rows read_swg
    resource_name tenant_from_name with_stream ref_count new_server pushed push push_list load_swg
    on_delta_stream_open registered auth_for record_ref load subscribe_all on_delta_request
one_subscriber = refl

one_count : get (bytes "t1") subscribed_server.tenant_refs ≡ some 1
unfolding get put is_some named or_empty peer_cert_identity beq has_prefix authorize_subscription
    rank same_kind or_error and_commit in_tx_ro scan_rows read_rows read_swg resource_name
    tenant_from_name with_stream ref_count new_server pushed push push_list load_swg
    on_delta_stream_open registered auth_for record_ref load subscribe_all on_delta_request
one_count = refl

stored_swg : stored test_db (bytes "t1") swg ≡ some (swg_rule_set (bytes "t1") 1 (test_row ∷ []))
unfolding stored list_resource or_error and_commit in_tx_ro scan_rows read_rows read_swg
stored_swg = refl

Reach-counts_example :
    get (bytes "t1") subscribed_server.tenant_refs
    ≡ positive (subscribers (bytes "t1") subscribed_server.streams)
Reach-counts_example = Reach-counts test_api subscribed_server (bytes "t1") test-Reach

Reach-device_isolated_example : bytes "t1" ≡ bytes "t1"
Reach-device_isolated_example =
    Reach-device_isolated test_api subscribed_server 7 subscribed_stream (bytes "t1") test-Reach
      subscribed_entry refl subscribed_named

on_delta_request-ok_iff_example :
    ((on_delta_request test_api test_db 7 test_request opened_server).0 ≡ ok tt) ↔ (
      (is_empty test_request.resource_names_subscribe ≡ true
        → named test_request.type_url opened_stream.named_types ≡ true)
      × All
          (MaySubscribe opened_stream.role opened_stream.cert_tenant opened_server.strict_sub_auth)
          test_request.resource_names_subscribe)
on_delta_request-ok_iff_example =
    on_delta_request-ok_iff test_api test_db 7 test_request opened_stream opened_server opened_entry

closed-evicts_example :
    get
      (resource_name (bytes "t1"))
      ((on_delta_stream_closed test_api 7 subscribed_server).caches swg)
    ≡ none
closed-evicts_example =
    closed-evicts test_api test_laws subscribed_server 7 subscribed_stream (bytes "t1") test-Reach
      subscribed_entry subscribed_named one_subscriber swg

reconcile_all-fresh_example :
    (get
        (resource_name (bytes "t1"))
        ((reconcile_all test_api test_db subscribed_server).caches swg)
      ≡ some (swg_rule_set (bytes "t1") 1 (test_row ∷ [])))
    × SameSubs (reconcile_all test_api test_db subscribed_server) subscribed_server
reconcile_all-fresh_example =
    reconcile_all-fresh test_api test_laws test_db subscribed_server (bytes "t1") 1 swg
      (swg_rule_set (bytes "t1") 1 (test_row ∷ [])) one_count stored_swg

t1_authorized :
    (authorize_subscription opened_stream.role opened_stream.has_cert opened_stream.cert_tenant
      (bytes "t1")
      opened_server.strict_sub_auth).0
    ≡ true
unfolding authorize_subscription beq on_delta_stream_open with_stream new_server
t1_authorized = refl

subscribe_stream-accepted_example :
    All
      (λ r. r ≡ ok tt)
      (answers test_api test_db 7
        (subscribe_stream (2 ∷ []) (bytes "t1") (([], true) ∷ ([], true) ∷ [])).0
        opened_server)
subscribe_stream-accepted_example =
    subscribe_stream-accepted test_api test_db 7 (2 ∷ []) (bytes "t1")
      (([], true) ∷ ([], true) ∷ []) opened_stream opened_server opened_entry (λ e. absurd (cc))
      t1_authorized
