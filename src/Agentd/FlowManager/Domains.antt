-- ===== src/Agentd/FlowManager/Domains.antt =====
-- Split DNS: a name is internal exactly when it stands at or below a configured suffix.
use sase.Prelude.{
  ◌≡◌, refl, ◌∙◌, ap, arith, Bool, true, false, not, ◌&&◌, ◌||◌, Bool-cases, inl, inr, List, [],
  ◌∷◌, is_empty,
}
use sase.Prelude.Bytes.{Bytes, beq_iff, blt}
use sase.Prelude.Dict.{Dict, get, put, get-put, bytes_key}
use sase.Prelude.Sort.{insert, stable_sort}
use sase.Agentd.FlowManager.{
  FlowManager, is_seen, trim_dot, under, any_under, normalize_suffix, dedup_suffixes,
  set_internal_domains, internal_domain,
}

-- Some configured suffix, once normalized and not empty, covers the name.
pub covered : (Bytes → Bytes) → List Bytes → Bytes → Bool
covered norm [] name = false
covered norm (x ∷ xs) name =
    (not (is_empty (norm x)) && under name (norm x)) || covered norm xs name

any_under-insert :
    (name x : Bytes) (xs : List Bytes)
    → any_under (insert blt x xs) name ≡ (under name x || any_under xs name)
unfolding any_under insert
any_under-insert name x [] = refl
any_under-insert name x (y ∷ ys) = ground (arith, any_under-insert name x ys)

any_under-stable_sort :
    (name : Bytes) (xs : List Bytes) → any_under (stable_sort blt xs) name ≡ any_under xs name
unfolding any_under stable_sort
any_under-stable_sort name [] = refl
any_under-stable_sort name (x ∷ xs) =
    any_under-insert name x (stable_sort blt xs)
    ∙ ap (λ b. under name x || b) (any_under-stable_sort name xs)

-- None of the suffixes seen so far covers the name.
Uncovered : Bytes → Dict Bytes Bool → Type 0
Uncovered name seen = (s : Bytes) → is_seen s seen ≡ true → under name s ≡ false

Uncovered-put :
    (name s : Bytes) (seen : Dict Bytes Bool)
    → under name s ≡ false
    → Uncovered name seen
    → Uncovered name (put s true seen)
unfolding Uncovered
Uncovered-put name s seen u h t e = ground (arith, get-put s t true seen, beq_iff s t, h t)

unseen :
    (name : Bytes) (seen : Dict Bytes Bool)
    → Uncovered name seen
    → (s : Bytes) → is_seen s seen ≡ true
    → under name s ≡ false
unfolding Uncovered
unseen name seen h = h

nothing_seen : (name : Bytes) → Uncovered name []
unfolding Uncovered get
nothing_seen name s e = ground arith

module _ (to_lower trim_space : Bytes → Bytes) where
  abbrev norm : Bytes → Bytes
  norm = normalize_suffix to_lower trim_space

  any_under-dedup :
      (name : Bytes) (seen : Dict Bytes Bool) (xs : List Bytes)
      → Uncovered name seen
      → any_under (dedup_suffixes to_lower trim_space seen xs) name ≡ covered norm xs name
  unfolding dedup_suffixes covered any_under
  any_under-dedup name seen [] h = refl
  any_under-dedup name seen (x ∷ xs) h = elim (Bool-cases (is_empty (norm x))) [
    | inl e ↦ rw e (any_under-dedup name seen xs h)
    | inr e ↦ elim (Bool-cases (is_seen (norm x) seen)) [
      | inl g ↦ rw (e, g, unseen name seen h (norm x) g) (any_under-dedup name seen xs h)
      | inr g ↦ elim (Bool-cases (under name (norm x))) [
        | inl u ↦ rw (e, g, u) refl
        | inr u ↦
            rw (e, g, u)
              (any_under-dedup name (put (norm x) true seen) xs
                (Uncovered-put name (norm x) seen u h))
      ]
    ]
  ]

  -- After SetInternalDomains a name is internal exactly when it is not empty and one of the given
  -- suffixes, normalized like it, is the name or what follows one of its dots.
  pub internal_domain-set :
      (m : FlowManager) (suffixes : List Bytes) (raw : Bytes)
      → let name = trim_dot (to_lower (trim_space raw)) in
        internal_domain to_lower trim_space
          (set_internal_domains to_lower trim_space m suffixes)
          raw
        ≡ (not (is_empty name) && covered norm suffixes name)
  unfolding internal_domain set_internal_domains
  internal_domain-set m suffixes raw =
      let name = trim_dot (to_lower (trim_space raw)) in
      let e =
        any_under-stable_sort name (dedup_suffixes to_lower trim_space [] suffixes)
        ∙ any_under-dedup name [] suffixes (nothing_seen name) in
      ground arith
