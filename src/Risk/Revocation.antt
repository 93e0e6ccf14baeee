-- ===== src/Risk/Revocation.antt =====
-- internal/pop/revocation.go: the revoked credentials of each tenant.
use sase.Prelude.{
  ◌≡◌, refl, arith, Bool, true, false, ◌||◌, List, [], ◌∷◌, none, some, if◌then◌else◌,
}
use sase.Prelude.Bytes.{Bytes, beq}
use sase.Prelude.Dict.{Dict, get, put, get-put, bytes_key}

abbrev pub RevocationStore : Type 0
RevocationStore = Dict Bytes (Dict Bytes Bool)

unfoldable pub new_revocation_store : RevocationStore
new_revocation_store = []

-- The loop that fills the set.
unfoldable pub set_of : Dict Bytes Bool → List Bytes → Dict Bytes Bool
set_of set [] = set
set_of set (j ∷ jtis) = set_of (put j true set) jtis

unfoldable pub set_revoked : RevocationStore → Bytes → List Bytes → RevocationStore
set_revoked rs tenant_id jtis = put tenant_id (set_of [] jtis) rs

-- set[jti]
unfoldable pub in_set : Bytes → Dict Bytes Bool → Bool
in_set jti set = elim (get jti set) [ none ↦ false | some b ↦ b ]

unfoldable pub is_revoked : RevocationStore → Bytes → Bytes → Bool
is_revoked rs tenant_id jti = elim (get tenant_id rs) [ none ↦ false | some set ↦ in_set jti set ]

-- An independent membership test.
pub listed : Bytes → List Bytes → Bool
listed jti [] = false
listed jti (j ∷ jtis) = beq j jti || listed jti jtis

in_set-put :
    (j jti : Bytes) (set : Dict Bytes Bool)
    → in_set jti (put j true set) ≡ (beq j jti || in_set jti set)
unfolding in_set
in_set-put j jti set = ground (arith, get-put j jti true set)

in_set-set_of :
    (jti : Bytes) (set : Dict Bytes Bool) (jtis : List Bytes)
    → in_set jti (set_of set jtis) ≡ (in_set jti set || listed jti jtis)
unfolding set_of listed
in_set-set_of jti set [] = ground arith
in_set-set_of jti set (j ∷ jtis) =
    ground (arith, in_set-set_of jti (put j true set) jtis, in_set-put j jti set)

in_empty : (jti : Bytes) → in_set jti [] ≡ false
unfolding in_set get
in_empty jti = refl

-- After Set a credential of that tenant is revoked exactly when the new list names it, and those
-- of every other tenant are as before.
pub is_revoked-set_revoked :
    (rs : RevocationStore) (tenant other jti : Bytes) (jtis : List Bytes)
    → is_revoked (set_revoked rs tenant jtis) other jti
      ≡ (if beq tenant other then listed jti jtis else is_revoked rs other jti)
unfolding is_revoked set_revoked
is_revoked-set_revoked rs tenant other jti jtis =
    ground
      (arith, get-put tenant other (set_of [] jtis) rs, in_set-set_of jti [] jtis, in_empty jti)
