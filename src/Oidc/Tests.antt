-- ===== src/Oidc/Tests.antt =====
-- A login that is stored, taken, and tried again.
use sase.Prelude.{◌≡◌, ◌≢◌, refl, arith, false, [], ◌∷◌, some}
use sase.Prelude.Bytes.{bytes}
use sase.Prelude.Result.{err}
use sase.Oidc.{
  StateRecord, StateStore, new_state_store, put_state, take_once, is_stale, invalid_state,
}
use sase.Oidc.Once.{put_call, gc_call, run, take_once-once}

abbrev login : StateRecord
login = record {
  tenant_id = bytes "acme";
  idp_id = bytes "idp";
  code_verifier = bytes "v";
  redirect_uri = bytes "https://a/cb";
  return_to = bytes "/";
  created_at = 0;
}

abbrev one_login : StateStore
one_login = (put_state new_state_store (some (bytes "s1")) 100 login).0

other_id : bytes "s2" ≢ bytes "s1"
other_id e = ground arith

take_once-once_example :
    (take_once
      (run
        (take_once one_login 200 (bytes "s1")).0
        (put_call (bytes "s2") 250 login ∷ gc_call 260 ∷ []))
      300
      (bytes "s1")).1
    ≡ err invalid_state
take_once-once_example =
    take_once-once one_login (bytes "s1") (put_call (bytes "s2") 250 login ∷ gc_call 260 ∷ []) 200
      300 (other_id, tt)

in_time : is_stale 200 (record login { created_at = 100 }) ≡ false
unfolding is_stale
in_time = refl
