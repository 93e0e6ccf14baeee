-- ===== src/Oidc.antt =====
-- internal/oidc/state.go: the store of logins under way. The random identifier and the clock's
-- reading are arguments; the mutex makes each call one step. The janitor's timer is left out: a run
-- of gc_expired may come between any two calls.
pub mod Once
mod Tests
use sase.Prelude.{
  ℕ, ◌+◌, ◌*◌, Bool, true, false, List, [], ◌∷◌, Option, none, some, if◌then◌else◌, ltb,
}
use sase.Prelude.Bytes.{Bytes}
use sase.Prelude.Dict.{Dict, get, put, del, bytes_key}
use sase.Prelude.Result.{Result, ok, err}

abbrev pub state_ttl : ℕ
state_ttl = 5 * 60 * 1000000000

pub record StateRecord : Type 0 where
  pub tenant_id : Bytes
  pub idp_id : Bytes
  pub code_verifier : Bytes
  pub redirect_uri : Bytes
  pub return_to : Bytes
  pub created_at : ℕ

abbrev pub StateStore : Type 0
StateStore = Dict Bytes StateRecord

pub data StateError : Type 0 where
  invalid_state state_expired rand_failed : StateError

unfoldable pub new_state_store : StateStore
new_state_store = []

-- Put; `none` is a failure of the random source.
unfoldable pub put_state :
    StateStore → Option Bytes → ℕ → StateRecord → StateStore × Result StateError Bytes
put_state s none now rec = (s, err rand_failed)
put_state s (some id) now rec = (put id (record rec { created_at = now }) s, ok id)

-- now.Sub(rec.CreatedAt) > ttl
unfoldable pub is_stale : ℕ → StateRecord → Bool
is_stale now rec = ltb (rec.created_at + state_ttl) now

unfoldable pub take_once : StateStore → ℕ → Bytes → StateStore × Result StateError StateRecord
take_once s now id = elim (get id s) [
  | none ↦ (s, err invalid_state)
  | some rec ↦ (del id s, if is_stale now rec then err state_expired else ok rec)
]

-- The loop of gcExpired over the entries still to visit.
unfoldable pub gc_from : ℕ → StateStore → StateStore → StateStore
gc_from now [] s = s
gc_from now ((id, rec) ∷ todo) s = gc_from now todo (if is_stale now rec then del id s else s)

unfoldable pub gc_expired : ℕ → StateStore → StateStore
gc_expired now s = gc_from now s s
