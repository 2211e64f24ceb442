-- ===== src/Rules/Forms.antt =====
-- src/dns/rules.rs, `add_rule` on the canonical forms of a rule for one domain.
use rust_dns_backend.Base.{
  ℕ, ◌≡◌, refl, ◌∙◌, ap, true, false, ◌||◌, some, [], ◌∷◌, ◌++◌, ◌==◌, arith, any,
}
use rust_dns_backend.Text.{Text, Unicode, codes, contains, text_eq, trim, is_whitespace}
use rust_dns_backend.Text.SplitLaws.{trim_framed}
use rust_dns_backend.RuleSyntax.{normalize_domain, is_valid_domain, parse_adguard_domain}
use rust_dns_backend.RuleSyntax.Frames.{is_domain_char, valid_absent, parse_adguard_domain-rule}
use rust_dns_backend.Rules.{
  RuleSet, block_domain, allow_domain, add_exception, add_block, add_trimmed, add_rule,
}

-- `||domain^` and `@@||domain^`, as the subscription parser writes them.
unfoldable pub block_rule : Text → Text
block_rule d = b'|' ∷ b'|' ∷ d ++ b'^' ∷ []

unfoldable pub allow_rule : Text → Text
allow_rule d = b'@' ∷ b'@' ∷ b'|' ∷ b'|' ∷ d ++ b'^' ∷ []

pub head_absent : (c x : ℕ) (s : Text) → contains c (x ∷ s) ≡ false → (x == c) ≡ false
unfolding contains any
head_absent c x s h = ground arith

module _ ⦃u : Unicode⦄ where
  pub trim-block_rule : (d : Text) → trim (block_rule d) ≡ block_rule d
  unfolding block_rule is_whitespace
  trim-block_rule d = trim_framed b'|' (b'|' ∷ d) b'^' refl refl

  trim-allow_rule : (d : Text) → trim (allow_rule d) ≡ allow_rule d
  unfolding allow_rule is_whitespace
  trim-allow_rule d = trim_framed b'@' (b'@' ∷ b'|' ∷ b'|' ∷ d) b'^' refl refl

  -- The rule of a valid domain is not the rule that blocks everything.
  block_rule-ne-all :
      (d : Text)
      → is_valid_domain d ≡ true
      → (text_eq (block_rule d) (codes "||*^") || text_eq (block_rule d) (codes "||*")) ≡ false
  unfolding block_rule text_eq is_valid_domain
  block_rule-ne-all [] h = cc
  block_rule-ne-all (c ∷ d) h =
      let no_star = valid_absent b'*' (c ∷ d) (unfold is_domain_char in refl) h in
      let e : (c == b'*') ≡ false = head_absent b'*' c d no_star in ground arith

module _ ⦃u : Unicode⦄ {S : Type 0} where
  pub add_rule_lem :
      (rs : RuleSet S) (line : Text) → trim line ≡ line → add_rule rs line ≡ add_trimmed rs line
  unfolding add_rule
  add_rule_lem rs line e = ap (add_trimmed rs) e

  add_exception-rule :
      (rs : RuleSet S) (rest d : Text)
      → parse_adguard_domain rest ≡ some d
      → add_exception rs rest ≡ (allow_domain rs d, true)
  unfolding add_exception
  add_exception-rule rs rest d e = rw e

  pub add_block-rule :
      (rs : RuleSet S) (line d : Text)
      → parse_adguard_domain line ≡ some d
      → add_block rs line ≡ (block_domain rs d, true)
  unfolding add_block
  add_block-rule rs line d e = rw e

  add_trimmed-allow_rule :
      (rs : RuleSet S) (d : Text)
      → add_trimmed rs (allow_rule d) ≡ add_exception rs (b'|' ∷ b'|' ∷ d ++ b'^' ∷ [])
  unfolding add_trimmed allow_rule
  add_trimmed-allow_rule rs d = refl

  add_trimmed-block_rule :
      (rs : RuleSet S) (d : Text)
      → (text_eq (block_rule d) (codes "||*^") || text_eq (block_rule d) (codes "||*")) ≡ false
      → add_trimmed rs (block_rule d) ≡ add_block rs (block_rule d)
  unfolding add_trimmed block_rule
  add_trimmed-block_rule rs d h = rw h

  -- `@@||d^` puts exactly the valid, normalised domain `d` into the allow set.
  pub add_rule-allow_rule :
      (rs : RuleSet S) (d : Text)
      → is_valid_domain d ≡ true
      → normalize_domain d ≡ d
      → add_rule rs (allow_rule d) ≡ (allow_domain rs d, true)
  add_rule-allow_rule rs d h n =
      add_rule_lem rs (allow_rule d) (trim-allow_rule d)
      ∙ (add_trimmed-allow_rule rs d
          ∙ add_exception-rule rs (b'|' ∷ b'|' ∷ d ++ b'^' ∷ []) d
              (parse_adguard_domain-rule d h n))

  -- `||d^` puts exactly the valid, normalised domain `d` into the block set.
  pub add_rule-block_rule :
      (rs : RuleSet S) (d : Text)
      → is_valid_domain d ≡ true
      → normalize_domain d ≡ d
      → add_rule rs (block_rule d) ≡ (block_domain rs d, true)
  add_rule-block_rule rs d h n =
      add_rule_lem rs (block_rule d) (trim-block_rule d)
      ∙ (add_trimmed-block_rule rs d (block_rule-ne-all d h)
          ∙ add_block-rule rs (block_rule d) d
              (unfold block_rule in parse_adguard_domain-rule d h n))
