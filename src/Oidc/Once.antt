-- ===== src/Oidc/Once.antt =====
-- A login's state is taken once, whatever else happens to the store.
use sase.Prelude.{ℕ, ◌≡◌, ◌≢◌, refl, arith, false, Bool-cases, inl, inr, List, [], ◌∷◌, none, some}
use sase.Prelude.Bytes.{Bytes, beq_iff, beq_refl}
use sase.Prelude.Dict.{get, del, get-put, get-del, bytes_key}
use sase.Prelude.Result.{ok, err}
use sase.Oidc.{
  StateRecord, StateStore, invalid_state, put_state, take_once, is_stale, gc_from, gc_expired,
}

-- The calls of the store; a Put that succeeds carries its identifier.
pub data Call : Type 0 where
  put_call : Bytes → ℕ → StateRecord → Call
  take_call : ℕ → Bytes → Call
  gc_call : ℕ → Call

unfoldable pub run : StateStore → List Call → StateStore
run s [] = s
run s (put_call id now rec ∷ calls) = run (put_state s (some id) now rec).0 calls
run s (take_call now id ∷ calls) = run (take_once s now id).0 calls
run s (gc_call now ∷ calls) = run (gc_expired now s) calls

-- The identifier is not drawn again.
abbrev pub NeverPut : Bytes → List Call → Type 0
NeverPut id [] = Unit {0}
NeverPut id (put_call j now rec ∷ calls) = (j ≢ id) × NeverPut id calls
NeverPut id (take_call now j ∷ calls) = NeverPut id calls
NeverPut id (gc_call now ∷ calls) = NeverPut id calls

gc_from-absent :
    (now : ℕ) (id : Bytes) (todo s : StateStore)
    → get id s ≡ none
    → get id (gc_from now todo s) ≡ none
unfolding gc_from
gc_from-absent now id [] s h = h
gc_from-absent now id ((j, rec) ∷ todo) s h = elim (Bool-cases (is_stale now rec)) [
  | inl e ↦ rw e (gc_from-absent now id todo (del j s) (ground (arith, get-del j id s)))
  | inr e ↦ rw e (gc_from-absent now id todo s h)
]

take_once-absent :
    (s : StateStore) (now : ℕ) (id j : Bytes)
    → get id s ≡ none
    → get id (take_once s now j).0 ≡ none
unfolding take_once
take_once-absent s now id j h = ground (arith, get-del j id s)

put_state-absent :
    (s : StateStore) (id j : Bytes) (now : ℕ) (rec : StateRecord)
    → j ≢ id
    → get id s ≡ none
    → get id (put_state s (some j) now rec).0 ≡ none
unfolding put_state
put_state-absent s id j now rec n h =
    ground (arith, get-put j id (record rec { created_at = now }) s, beq_iff j id)

run-absent :
    (s : StateStore) (id : Bytes) (calls : List Call)
    → NeverPut id calls
    → get id s ≡ none
    → get id (run s calls) ≡ none
unfolding run
run-absent s id [] n h = h
run-absent s id (put_call j now rec ∷ calls) n h =
    run-absent (put_state s (some j) now rec).0 id calls n.1 (put_state-absent s id j now rec n.0 h)
run-absent s id (take_call now j ∷ calls) n h =
    run-absent (take_once s now j).0 id calls n (take_once-absent s now id j h)
run-absent s id (gc_call now ∷ calls) n h =
    run-absent (gc_expired now s) id calls n (unfold gc_expired in gc_from-absent now id s s h)

taken-absent : (s : StateStore) (now : ℕ) (id : Bytes) → get id (take_once s now id).0 ≡ none
unfolding take_once
taken-absent s now id = ground (arith, get-del id id s, beq_refl id)

refuses :
    (s : StateStore) (now : ℕ) (id : Bytes)
    → get id s ≡ none
    → (take_once s now id).1 ≡ err invalid_state
unfolding take_once
refuses s now id h = rw (h, take_once) refl

-- Once TakeOnce was called with an identifier, in time or not, it is refused ever after, through
-- any calls that do not draw the identifier again.
pub take_once-once :
    (s : StateStore) (id : Bytes) (calls : List Call) (now later : ℕ)
    → NeverPut id calls
    → (take_once (run (take_once s now id).0 calls) later id).1 ≡ err invalid_state
take_once-once s id calls now later n =
    refuses (run (take_once s now id).0 calls) later id
      (run-absent (take_once s now id).0 id calls n (taken-absent s now id))

-- A login that comes back within the time limit finds the record that it left.
pub take_once-put_state :
    (s : StateStore) (id : Bytes) (rec : StateRecord) (now later : ℕ)
    → is_stale later (record rec { created_at = now }) ≡ false
    → (take_once (put_state s (some id) now rec).0 later id).1
      ≡ ok (record rec { created_at = now })
unfolding take_once put_state
take_once-put_state s id rec now later h =
    ground (arith, get-put id id (record rec { created_at = now }) s, beq_refl id)
