-- ===== src/Rules/Lines.antt =====
-- src/dns/rules.rs: what holds of every rule set that lines have built, whatever they say.
use rust_dns_backend.Base.{
  ◌≡◌, refl, ◌⊎◌, inl, inr, Bool, true, false, Option, none, List, [], ◌∷◌, Bool-cases, All, is_nil,
}
use rust_dns_backend.Text.{Text, Unicode}
use rust_dns_backend.RuleSyntax.{is_valid_domain}
use rust_dns_backend.Rules.Add.{
  Effect, unchanged, everything, block, allow, block_wild, allow_wild, add_rule-Effect,
}
use rust_dns_backend.Rules.{
  RegexCrate, RuleSet, set_insert, set_contains, block_domain, allow_domain, block_pattern,
  allow_pattern, add_rule, add_rules, compile_patterns, build, new_rules,
}

-- No domain stands in a set twice.
abbrev pub Distinct : List Text → Type 0
Distinct [] = Unit
Distinct (d ∷ ds) = (set_contains d ds ≡ false) × Distinct ds

set_insert-Distinct : (d : Text) (ds : List Text) → Distinct ds → Distinct (set_insert d ds)
unfolding set_insert
set_insert-Distinct d ds h = elim (Bool-cases (set_contains d ds)) [
  | inl e ↦ rw e h
  | inr e ↦ rw e (e, h)
]

set_insert-All :
    (P : Text → Type 0) (d : Text) (ds : List Text) → P d → All P ds → All P (set_insert d ds)
unfolding set_insert
set_insert-All P d ds p h = elim (Bool-cases (set_contains d ds)) [
  | inl e ↦ rw e h
  | inr e ↦ rw e (p, h)
]

-- A compiled set is missing, or is the current patterns compiled.
module _ {S : Type 0} ⦃re : RegexCrate S⦄ where
  abbrev pub IsFresh : List Text → Option S → Type 0
  IsFresh patterns set = (set ≡ none) ⊎ (set ≡ compile_patterns patterns)

module _ ⦃u : Unicode⦄ {S : Type 0} ⦃re : RegexCrate S⦄ where
  -- Allowed domains are valid, blocked ones are at least not empty, neither is stored twice, and no
  -- compiled set is older than its patterns.
  pub record IsWellFormed (rs : RuleSet S) : Type 0 where
    pub allowed_valid : All (λ d. is_valid_domain d ≡ true) rs.allowed_set
    pub blocked_not_empty : All (λ d. is_nil d ≡ false) rs.blocked_set
    pub allowed_distinct : Distinct rs.allowed_set
    pub blocked_distinct : Distinct rs.blocked_set
    pub blocked_fresh : IsFresh rs.wildcard_blocked_patterns rs.wildcard_blocked_set
    pub allowed_fresh : IsFresh rs.wildcard_allowed_patterns rs.wildcard_allowed_set

  pub new_rules-IsWellFormed : IsWellFormed (new_rules {S = S})
  unfolding new_rules
  new_rules-IsWellFormed = record {
    allowed_valid = tt;
    blocked_not_empty = tt;
    allowed_distinct = tt;
    blocked_distinct = tt;
    blocked_fresh = inl refl;
    allowed_fresh = inl refl;
  }

  Effect-IsWellFormed :
      (rs : RuleSet S) (r : RuleSet S × Bool) → Effect rs r → IsWellFormed rs → IsWellFormed r.0
  unfolding block_domain allow_domain block_pattern allow_pattern
  Effect-IsWellFormed rs r (unchanged e) w = rw e w
  Effect-IsWellFormed rs r (everything e) w = rw e (record {
    allowed_valid = w.allowed_valid;
    blocked_not_empty = w.blocked_not_empty;
    allowed_distinct = w.allowed_distinct;
    blocked_distinct = w.blocked_distinct;
    blocked_fresh = w.blocked_fresh;
    allowed_fresh = w.allowed_fresh;
  })
  Effect-IsWellFormed rs r (block d v e) w = rw e (record {
    allowed_valid = w.allowed_valid;
    blocked_not_empty =
        set_insert-All (λ x. is_nil x ≡ false) d rs.blocked_set v w.blocked_not_empty;
    allowed_distinct = w.allowed_distinct;
    blocked_distinct = set_insert-Distinct d rs.blocked_set w.blocked_distinct;
    blocked_fresh = w.blocked_fresh;
    allowed_fresh = w.allowed_fresh;
  })
  Effect-IsWellFormed rs r (allow d v e) w = rw e (record {
    allowed_valid =
        set_insert-All (λ x. is_valid_domain x ≡ true) d rs.allowed_set v w.allowed_valid;
    blocked_not_empty = w.blocked_not_empty;
    allowed_distinct = set_insert-Distinct d rs.allowed_set w.allowed_distinct;
    blocked_distinct = w.blocked_distinct;
    blocked_fresh = w.blocked_fresh;
    allowed_fresh = w.allowed_fresh;
  })
  Effect-IsWellFormed rs r (block_wild p e) w = rw e (record {
    allowed_valid = w.allowed_valid;
    blocked_not_empty = w.blocked_not_empty;
    allowed_distinct = w.allowed_distinct;
    blocked_distinct = w.blocked_distinct;
    blocked_fresh = inl refl;
    allowed_fresh = w.allowed_fresh;
  })
  Effect-IsWellFormed rs r (allow_wild p e) w = rw e (record {
    allowed_valid = w.allowed_valid;
    blocked_not_empty = w.blocked_not_empty;
    allowed_distinct = w.allowed_distinct;
    blocked_distinct = w.blocked_distinct;
    blocked_fresh = w.blocked_fresh;
    allowed_fresh = inl refl;
  })

  pub add_rule-IsWellFormed :
      (rs : RuleSet S) (line : Text) → IsWellFormed rs → IsWellFormed (add_rule rs line).0
  add_rule-IsWellFormed rs line w =
      Effect-IsWellFormed rs (add_rule rs line) (add_rule-Effect rs line) w

  -- Every line keeps a well-formed rule set well formed.
  pub add_rules-IsWellFormed :
      (rs : RuleSet S) (lines : List Text) → IsWellFormed rs → IsWellFormed (add_rules rs lines).0
  unfolding add_rules
  add_rules-IsWellFormed rs [] w = w
  add_rules-IsWellFormed rs (line ∷ lines) w =
      add_rules-IsWellFormed (add_rule rs line).0 lines (add_rule-IsWellFormed rs line w)

  pub build-IsWellFormed : (rs : RuleSet S) → IsWellFormed rs → IsWellFormed (build rs)
  unfolding build
  build-IsWellFormed rs w = record {
    allowed_valid = w.allowed_valid;
    blocked_not_empty = w.blocked_not_empty;
    allowed_distinct = w.allowed_distinct;
    blocked_distinct = w.blocked_distinct;
    blocked_fresh = inr refl;
    allowed_fresh = inr refl;
  }
