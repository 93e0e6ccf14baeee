-- ===== src/Swg/Verdict.antt =====
-- A request is refused exactly when a block rule names its host or a prefix of its path.
use sase.Prelude.{◌≡◌, ◌↔◌, ◌⊎◌, inl, inr, true, false, List, [], ◌∷◌, arith, Any, if◌then◌else◌}
use sase.Prelude.Bytes.{Bytes, beq, beq_iff, has_prefix}
use sase.Prelude.Dict.{get-put, bytes_key}
use sase.Swg
use sase.Swg.{Rule, Request, SwgStore}

-- The rule is a block rule that hits the request.
abbrev pub Blocks : Request → Rule → Type 0
Blocks req r =
    (r.action ≡ Swg.action_block)
    × (((r.kind ≡ Swg.kind_host) × (req.host ≡ r.pattern_text))
        ⊎ ((r.kind ≡ Swg.kind_path_prefix) × (has_prefix req.path r.pattern_text ≡ true)))

Blocks-now :
    (r : Rule) (rules : List Rule) (req : Request)
    → Blocks req r
    → (Swg.evaluate (r ∷ rules) req).allow ≡ false
unfolding Swg.evaluate
Blocks-now r rules req h = ground (
  arith,
  beq_iff r.action Swg.action_block,
  beq_iff r.kind Swg.kind_host,
  beq_iff r.kind Swg.kind_path_prefix,
  beq_iff req.host r.pattern_text,
)

Blocks-or_rest :
    (r : Rule) (rules : List Rule) (req : Request)
    → Blocks req r ⊎ ((Swg.evaluate (r ∷ rules) req).allow ≡ (Swg.evaluate rules req).allow)
unfolding Swg.evaluate
Blocks-or_rest r rules req = ground (
  arith,
  beq_iff r.action Swg.action_block,
  beq_iff r.kind Swg.kind_host,
  beq_iff r.kind Swg.kind_path_prefix,
  beq_iff req.host r.pattern_text,
)

evaluate-block_step :
    (r : Rule) (rules : List Rule) (req : Request)
    → (((Swg.evaluate rules req).allow ≡ false) ↔ Any (Blocks req) rules)
    → Blocks req r ⊎ ((Swg.evaluate (r ∷ rules) req).allow ≡ (Swg.evaluate rules req).allow)
    → ((Swg.evaluate (r ∷ rules) req).allow ≡ false) ↔ (Blocks req r ⊎ Any (Blocks req) rules)
evaluate-block_step r rules req ih (inl b) = (λ e. inl b, λ h. Blocks-now r rules req b)
evaluate-block_step r rules req ih (inr same) = (λ e. inr (ih.0 (rw same at e)), later)
  where
    later : Blocks req r ⊎ Any (Blocks req) rules → (Swg.evaluate (r ∷ rules) req).allow ≡ false
    later (inl b) = Blocks-now r rules req b
    later (inr h) = rw same (ih.1 h)

-- A request is refused exactly when some rule of the list is a block rule for its host or for a
-- prefix of its path; any other rule, whatever its action or kind, lets it pass.
pub evaluate-block_iff :
    (rules : List Rule) (req : Request)
    → ((Swg.evaluate rules req).allow ≡ false) ↔ Any (Blocks req) rules
evaluate-block_iff [] req = (λ e. unfold Swg.evaluate in cc e, λ h. absurd h)
evaluate-block_iff (r ∷ rules) req =
    evaluate-block_step r rules req (evaluate-block_iff rules req) (Blocks-or_rest r rules req)

-- A tenant's rules are those last set for it; setting them changes no other tenant's.
pub get_rules-set_rules :
    (s : SwgStore) (tenant other : Bytes) (rules : List Rule)
    → Swg.get_rules (Swg.set_rules s tenant rules) other
      ≡ (if beq tenant other then rules else Swg.get_rules s other)
unfolding Swg.get_rules Swg.set_rules
get_rules-set_rules s tenant other rules = ground (arith, get-put tenant other rules s)
