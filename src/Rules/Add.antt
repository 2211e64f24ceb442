-- ===== src/Rules/Add.antt =====
-- src/dns/rules.rs, `add_rule`: what a line can do to a rule set, and what holds of every set that
-- lines have built.
use rust_dns_backend.Base.{
  ◌||◌, ◌≡◌, ap, inl, inr, Bool, true, false, arith, Bool-cases, Option-cases, is_nil,
}
use rust_dns_backend.Text.{Text, Unicode, codes, text_eq, strip_prefix, trim, trim_end}
use rust_dns_backend.RuleSyntax.{
  normalize_domain, is_valid_domain, checked_domain, strip_options, parse_adguard_domain,
  parse_adguard_wildcard_pattern, parse_hosts_line,
}
use rust_dns_backend.RuleSyntax.Labels.{
  checked_domain_inv, parse_adguard_domain_inv, parse_hosts_line_inv, valid-ne-nil,
}
use rust_dns_backend.Rules.{
  RuleSet, block_domain, allow_domain, block_pattern, allow_pattern, add_exception, add_dotted,
  add_plain, add_star, add_other, add_block, is_skipped, add_trimmed, add_rule,
}

module _ ⦃u : Unicode⦄ {S : Type 0} where
  -- The six things that a line can do.
  pub data Effect (rs : RuleSet S) (r : RuleSet S × Bool) : Type 0 where
    unchanged : r ≡ (rs, false) → Effect rs r
    everything : r ≡ (record rs { block_all = true }, true) → Effect rs r
    block : (d : Text) → is_nil d ≡ false → r ≡ (block_domain rs d, true) → Effect rs r
    allow : (d : Text) → is_valid_domain d ≡ true → r ≡ (allow_domain rs d, true) → Effect rs r
    block_wild : (p : Text) → r ≡ (block_pattern rs p, true) → Effect rs r
    allow_wild : (p : Text) → r ≡ (allow_pattern rs p, true) → Effect rs r

  add_exception-Effect : (rs : RuleSet S) (rest : Text) → Effect rs (add_exception rs rest)
  unfolding add_exception
  add_exception-Effect rs rest = elim (Option-cases (parse_adguard_domain rest)) [
    | inr (d, e) ↦ allow d (parse_adguard_domain_inv rest e) (ground arith)
    | inl n ↦ elim (Option-cases (parse_adguard_wildcard_pattern rest)) [
      | inr (p, e) ↦ allow_wild p (ground arith)
      | inl m ↦ unchanged (ground arith)
    ]
  ]

  add_dotted-Effect : (rs : RuleSet S) (inner : Text) → Effect rs (add_dotted rs inner)
  unfolding add_dotted
  add_dotted-Effect rs inner =
      elim (Option-cases (checked_domain (trim_end b'.' (strip_options inner)))) [
        | inr (d, e) ↦
            block d (valid-ne-nil d (checked_domain_inv (trim_end b'.' (strip_options inner)) e))
              (ground arith)
        | inl n ↦ unchanged (ground arith)
      ]

  add_plain-Effect : (rs : RuleSet S) (line : Text) → Effect rs (add_plain rs line)
  unfolding add_plain
  add_plain-Effect rs line = elim (Option-cases (checked_domain line)) [
    | inr (d, e) ↦ block d (valid-ne-nil d (checked_domain_inv line e)) (ground arith)
    | inl n ↦ unchanged (ground arith)
  ]

  add_star-Effect : (rs : RuleSet S) (line : Text) → Effect rs (add_star rs line)
  unfolding add_star
  add_star-Effect rs line = elim (Option-cases (strip_prefix (codes "*.") line)) [
    | inl n ↦ rw n (add_plain-Effect rs line)
    | inr (rest, e) ↦ elim (Bool-cases (is_nil (normalize_domain rest))) [
      | inl k ↦ rw (e, k) (add_plain-Effect rs line)
      | inr k ↦ block (normalize_domain rest) k (rw (e, k))
    ]
  ]

  add_other-Effect : (rs : RuleSet S) (line : Text) → Effect rs (add_other rs line)
  unfolding add_other
  add_other-Effect rs line = elim (Option-cases (strip_prefix (codes ".") line)) [
    | inr (inner, e) ↦ rw e (add_dotted-Effect rs inner)
    | inl n ↦ elim (Option-cases (parse_hosts_line line)) [
      | inr (d, e) ↦ block d (valid-ne-nil d (parse_hosts_line_inv line e)) (rw (n, e))
      | inl m ↦ rw (n, m) (add_star-Effect rs line)
    ]
  ]

  add_block-Effect : (rs : RuleSet S) (line : Text) → Effect rs (add_block rs line)
  unfolding add_block
  add_block-Effect rs line = elim (Option-cases (parse_adguard_domain line)) [
    | inr (d, e) ↦ block d (valid-ne-nil d (parse_adguard_domain_inv line e)) (ground arith)
    | inl n ↦ elim (Option-cases (parse_adguard_wildcard_pattern line)) [
      | inr (p, e) ↦ block_wild p (ground arith)
      | inl m ↦ rw (n, m) (add_other-Effect rs line)
    ]
  ]

  add_trimmed-Effect : (rs : RuleSet S) (line : Text) → Effect rs (add_trimmed rs line)
  unfolding add_trimmed
  add_trimmed-Effect rs line = elim (Bool-cases (is_skipped line)) [
    | inl e ↦ unchanged (ground arith)
    | inr e ↦ elim (Bool-cases (text_eq line (codes "||*^") || text_eq line (codes "||*"))) [
      | inl k ↦ everything (ground arith)
      | inr k ↦ elim (Option-cases (strip_prefix (codes "@@") line)) [
        | inr (rest, q) ↦ rw (e, k, q) (add_exception-Effect rs rest)
        | inl n ↦ rw (e, k, n) (add_block-Effect rs line)
      ]
    ]
  ]

  pub add_rule-Effect : (rs : RuleSet S) (line : Text) → Effect rs (add_rule rs line)
  unfolding add_rule
  add_rule-Effect rs line = add_trimmed-Effect rs (trim line)

  -- A line that is reported as no rule has changed nothing.
  pub add_rule-rejected :
      (rs : RuleSet S) (line : Text) → (add_rule rs line).1 ≡ false → (add_rule rs line).0 ≡ rs
  add_rule-rejected rs line h = elim (add_rule-Effect rs line) [
    | unchanged e ↦ ap (λ (r : RuleSet S × Bool). r.0) e
    | everything e ↦ cc
    | block d v e ↦ cc
    | allow d v e ↦ cc
    | block_wild p e ↦ cc
    | allow_wild p e ↦ cc
  ]
