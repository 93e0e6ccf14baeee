-- ===== src/Xds/Reconcile/Names.antt =====
-- The names of the resources and the kinds tell the tenants and the caches apart.
use sase.Prelude.{ℕ, zero, suc, ◌≡◌, refl, arith, true, [], ◌∷◌, ◌++◌, ==_iff, ==_refl}
use sase.Prelude.Bytes.{Bytes, beq, beq_iff}
use sase.Prelude.Dict.{bytes_key}
use sase.Xds.Resources.{Kind, policy, revocation, swg, site, fw, dlp, same_kind, rank}
use sase.Xds.Server.{resource_name, name_prefix}

append_cancel : (p a b : Bytes) → p ++ a ≡ p ++ b → a ≡ b
append_cancel [] a b h = h
append_cancel (x ∷ p) a b h = append_cancel p a b (cc)

resource_name-injective : (a b : Bytes) → resource_name a ≡ resource_name b → a ≡ b
unfolding resource_name
resource_name-injective a b h = append_cancel name_prefix a b h

kind_of : ℕ → Kind
kind_of zero = policy
kind_of (suc zero) = revocation
kind_of (suc (suc zero)) = swg
kind_of (suc (suc (suc zero))) = site
kind_of (suc (suc (suc (suc zero)))) = fw
kind_of _ = dlp

kind_of-rank : (k : Kind) → kind_of (rank k) ≡ k
unfolding kind_of rank
kind_of-rank policy = refl
kind_of-rank revocation = refl
kind_of-rank swg = refl
kind_of-rank site = refl
kind_of-rank fw = refl
kind_of-rank dlp = refl

pub same_kind→eq : (k j : Kind) → same_kind k j ≡ true → k ≡ j
unfolding same_kind
same_kind→eq k j h =
    let ranks : rank k ≡ rank j = (==_iff (rank k) (rank j)).0 h in
    ground (arith, kind_of-rank k, kind_of-rank j, ranks)

pub same_kind_refl : (k : Kind) → same_kind k k ≡ true
unfolding same_kind
same_kind_refl k = ==_refl (rank k)

pub beq-resource_name : (a b : Bytes) → beq (resource_name a) (resource_name b) ≡ beq a b
beq-resource_name a b =
    ground
      (arith, beq_iff (resource_name a) (resource_name b), beq_iff a b, resource_name-injective a b)
