-- ===== src/Rules/Growth.antt =====
-- src/dns/rules.rs: lines only ever add to a rule set, and how many rules they add.
use rust_dns_backend.Base.{
  ◌+◌, ◌≤◌, ◌≡◌, refl, inl, inr, Bool, true, List, [], ◌∷◌, arith, Bool-cases, In, there,
  In-append_left, length, length-append, if◌then◌else◌,
}
use rust_dns_backend.Text.{Text, Unicode}
use rust_dns_backend.Rules.Add.{
  Effect, unchanged, everything, block, allow, block_wild, allow_wild, add_rule-Effect,
}
use rust_dns_backend.Rules.{
  RuleSet, set_insert, set_contains, block_domain, allow_domain, block_pattern, allow_pattern,
  add_rule, add_rules, blocked_count, allowed_count,
}

set_insert-keeps : {a : Text} (d : Text) (ds : List Text) → In a ds → In a (set_insert d ds)
unfolding set_insert
set_insert-keeps d ds m = elim (Bool-cases (set_contains d ds)) [
  | inl e ↦ rw e m
  | inr e ↦ rw e (there m)
]

length-set_insert : (d : Text) (ds : List Text) → length (set_insert d ds) ≤ length ds + 1
unfolding set_insert
length-set_insert d ds = ground arith

module _ ⦃u : Unicode⦄ {S : Type 0} where
  -- `rs'` has all that `rs` has.
  pub record Grows (rs rs' : RuleSet S) : Type 0 where
    pub keeps_blocked : (d : Text) → In d rs.blocked_set → In d rs'.blocked_set
    pub keeps_allowed : (d : Text) → In d rs.allowed_set → In d rs'.allowed_set
    pub keeps_wild_blocked :
        (p : Text) → In p rs.wildcard_blocked_patterns → In p rs'.wildcard_blocked_patterns
    pub keeps_wild_allowed :
        (p : Text) → In p rs.wildcard_allowed_patterns → In p rs'.wildcard_allowed_patterns
    pub keeps_all : rs.block_all ≡ true → rs'.block_all ≡ true

  Grows-refl : (rs : RuleSet S) → Grows rs rs
  Grows-refl rs = record {
    keeps_blocked = λ d m. m;
    keeps_allowed = λ d m. m;
    keeps_wild_blocked = λ p m. m;
    keeps_wild_allowed = λ p m. m;
    keeps_all = λ e. e;
  }

  Grows-trans : {a b c : RuleSet S} → Grows a b → Grows b c → Grows a c
  Grows-trans g h = record {
    keeps_blocked = λ d m. h.keeps_blocked d (g.keeps_blocked d m);
    keeps_allowed = λ d m. h.keeps_allowed d (g.keeps_allowed d m);
    keeps_wild_blocked = λ p m. h.keeps_wild_blocked p (g.keeps_wild_blocked p m);
    keeps_wild_allowed = λ p m. h.keeps_wild_allowed p (g.keeps_wild_allowed p m);
    keeps_all = λ e. h.keeps_all (g.keeps_all e);
  }

  Effect-Grows : (rs : RuleSet S) (r : RuleSet S × Bool) → Effect rs r → Grows rs r.0
  unfolding block_domain allow_domain block_pattern allow_pattern
  Effect-Grows rs r (unchanged e) = rw e (Grows-refl rs)
  Effect-Grows rs r (everything e) = rw e (record {
    keeps_blocked = λ d m. m;
    keeps_allowed = λ d m. m;
    keeps_wild_blocked = λ p m. m;
    keeps_wild_allowed = λ p m. m;
    keeps_all = λ e. refl;
  })
  Effect-Grows rs r (block d v e) = rw e (record {
    keeps_blocked = λ a m. set_insert-keeps d rs.blocked_set m;
    keeps_allowed = λ d m. m;
    keeps_wild_blocked = λ p m. m;
    keeps_wild_allowed = λ p m. m;
    keeps_all = λ e. e;
  })
  Effect-Grows rs r (allow d v e) = rw e (record {
    keeps_blocked = λ d m. m;
    keeps_allowed = λ a m. set_insert-keeps d rs.allowed_set m;
    keeps_wild_blocked = λ p m. m;
    keeps_wild_allowed = λ p m. m;
    keeps_all = λ e. e;
  })
  Effect-Grows rs r (block_wild p e) = rw e (record {
    keeps_blocked = λ d m. m;
    keeps_allowed = λ d m. m;
    keeps_wild_blocked = λ q m. In-append_left rs.wildcard_blocked_patterns (p ∷ []) m;
    keeps_wild_allowed = λ p m. m;
    keeps_all = λ e. e;
  })
  Effect-Grows rs r (allow_wild p e) = rw e (record {
    keeps_blocked = λ d m. m;
    keeps_allowed = λ d m. m;
    keeps_wild_blocked = λ p m. m;
    keeps_wild_allowed = λ q m. In-append_left rs.wildcard_allowed_patterns (p ∷ []) m;
    keeps_all = λ e. e;
  })

  -- No line takes back what an earlier line has added.
  pub add_rules-Grows : (rs : RuleSet S) (lines : List Text) → Grows rs (add_rules rs lines).0
  unfolding add_rules
  add_rules-Grows rs [] = Grows-refl rs
  add_rules-Grows rs (line ∷ lines) =
      Grows-trans (Effect-Grows rs (add_rule rs line) (add_rule-Effect rs line))
        (add_rules-Grows (add_rule rs line).0 lines)

  Effect-count :
      (rs : RuleSet S) (r : RuleSet S × Bool)
      → Effect rs r
      → blocked_count r.0 + allowed_count r.0
        ≤ blocked_count rs + allowed_count rs + (if r.1 then 1 else 0)
  unfolding blocked_count allowed_count block_domain allow_domain block_pattern allow_pattern
  Effect-count rs r (unchanged e) = rw e (omega arith)
  Effect-count rs r (everything e) = rw e (omega arith)
  Effect-count rs r (block d v e) = rw e (omega (arith, length-set_insert d rs.blocked_set))
  Effect-count rs r (allow d v e) = rw e (omega (arith, length-set_insert d rs.allowed_set))
  Effect-count rs r (block_wild p e) =
      rw e (omega (arith, length-append rs.wildcard_blocked_patterns (p ∷ [])))
  Effect-count rs r (allow_wild p e) =
      rw e (omega (arith, length-append rs.wildcard_allowed_patterns (p ∷ [])))

  -- The rules that a set holds are no more than the lines that were counted as rules.
  pub add_rules_count :
      (rs : RuleSet S) (lines : List Text)
      → blocked_count (add_rules rs lines).0 + allowed_count (add_rules rs lines).0
        ≤ blocked_count rs + allowed_count rs + (add_rules rs lines).1
  unfolding add_rules
  add_rules_count rs [] = omega arith
  add_rules_count rs (line ∷ lines) = ground (
    arith,
    Effect-count rs (add_rule rs line) (add_rule-Effect rs line),
    add_rules_count (add_rule rs line).0 lines,
  )
