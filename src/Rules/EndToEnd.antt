-- ===== src/Rules/EndToEnd.antt =====
-- src/dns/rules.rs, from rule lines to answers: lines added in any order, patterns compiled, and a
-- name matched.
use rust_dns_backend.Base.{◌≡◌, inl, inr, true, List, [], ◌∷◌, Bool-cases, In, here, there}
use rust_dns_backend.Text.{Text, Unicode}
use rust_dns_backend.RuleSyntax.{normalize_domain, is_valid_domain}
use rust_dns_backend.Rules.Match.{IsAncestor, set_contains_iff}
use rust_dns_backend.Rules.Decide.{Exempt, match_domain_lem}
use rust_dns_backend.Rules.Growth.{add_rules-Grows}
use rust_dns_backend.Rules.Forms.{block_rule, allow_rule, add_rule-block_rule, add_rule-allow_rule}
use rust_dns_backend.Rules.{
  allowed, blocked, RegexCrate, RuleSet, set_insert, set_contains, block_domain, allow_domain,
  add_rule, add_rules, build, query_name, match_domain,
}

pub In-set_insert : (d : Text) (ds : List Text) → In d (set_insert d ds)
unfolding set_insert
In-set_insert d ds = elim (Bool-cases (set_contains d ds)) [
  | inl e ↦ rw e ((set_contains_iff d ds).0 e)
  | inr e ↦ rw e here
]

module _ ⦃u : Unicode⦄ {S : Type 0} (d : Text) (valid : is_valid_domain d ≡ true)
    (normal : normalize_domain d ≡ d) where
  In-add_block_rule : (rs : RuleSet S) → In d (add_rule rs (block_rule d)).0.blocked_set
  unfolding block_domain
  In-add_block_rule rs = rw (add_rule-block_rule rs d valid normal) (In-set_insert d rs.blocked_set)

  In-add_allow_rule : (rs : RuleSet S) → In d (add_rule rs (allow_rule d)).0.allowed_set
  unfolding allow_domain
  In-add_allow_rule rs = rw (add_rule-allow_rule rs d valid normal) (In-set_insert d rs.allowed_set)

  In-add_rules_block :
      (rs : RuleSet S) (lines : List Text)
      → In (block_rule d) lines
      → In d (add_rules rs lines).0.blocked_set
  unfolding add_rules
  In-add_rules_block rs [] m = elim m [ ]
  In-add_rules_block rs (line ∷ lines) here =
      (add_rules-Grows (add_rule rs line).0 lines).keeps_blocked d (In-add_block_rule rs)
  In-add_rules_block rs (line ∷ lines) (there m) = In-add_rules_block (add_rule rs line).0 lines m

  In-add_rules_allow :
      (rs : RuleSet S) (lines : List Text)
      → In (allow_rule d) lines
      → In d (add_rules rs lines).0.allowed_set
  unfolding add_rules
  In-add_rules_allow rs [] m = elim m [ ]
  In-add_rules_allow rs (line ∷ lines) here =
      (add_rules-Grows (add_rule rs line).0 lines).keeps_allowed d (In-add_allow_rule rs)
  In-add_rules_allow rs (line ∷ lines) (there m) = In-add_rules_allow (add_rule rs line).0 lines m

  module _ ⦃re : RegexCrate S⦄ where
    -- Among any lines, `||d^` blocks `d` and every name below it, unless an allow rule covers the
    -- name. `d` is a valid domain in normal form, and the name is the query without its trailing dots,
    -- in lower case.
    pub block_rule-blocks :
        (rs : RuleSet S) (lines : List Text) (query : Text)
        → In (block_rule d) lines
        → IsAncestor d (query_name query)
        → ¬ Exempt (build (add_rules rs lines).0) (query_name query)
        → match_domain (build (add_rules rs lines).0) query ≡ blocked
    unfolding build
    block_rule-blocks rs lines query m a n =
        (match_domain_lem (build (add_rules rs lines).0) query).1.1
          (n, inr (inl (d, a, In-add_rules_block rs lines m)))

    -- Among any lines, `@@||d^` allows `d` and every name below it, whatever the other lines block. `d`
    -- is a valid domain in normal form, and the name is the query without its trailing dots, in lower
    -- case.
    pub allow_rule-allows :
        (rs : RuleSet S) (lines : List Text) (query : Text)
        → In (allow_rule d) lines
        → IsAncestor d (query_name query)
        → match_domain (build (add_rules rs lines).0) query ≡ allowed
    unfolding build
    allow_rule-allows rs lines query m a =
        (match_domain_lem (build (add_rules rs lines).0) query).0.1
          (inl (d, a, In-add_rules_allow rs lines m))
