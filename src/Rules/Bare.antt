-- ===== src/Rules/Bare.antt =====
-- src/dns/rules.rs, `add_rule` on `||domain` without a caret, as parental control writes its rules.
use rust_dns_backend.Base.{
  In, here, there, ℕ, ◌≡◌, refl, ◌∙◌, inl, inr, Bool, true, false, ◌||◌, some, List, [], ◌∷◌, ◌++◌,
  ◌==◌, arith, all,
}
use rust_dns_backend.Text.{
  Text, Unicode, codes, contains, text_eq, trim, is_whitespace, is_alphanumeric, trim_end_by,
}
use rust_dns_backend.Text.Split.{split}
use rust_dns_backend.Text.SplitLaws.{split_by_absent, trim_end_by_cases}
use rust_dns_backend.RuleSyntax.{
  normalize_domain, is_valid_domain, parse_adguard_domain, strip_options,
}
use rust_dns_backend.RuleSyntax.Frames.{
  is_domain_char, valid_chars, valid_absent, trim_rule_end-valid, checked_domain-valid,
}
use rust_dns_backend.Rules.{RuleSet, block_domain, add_block, add_trimmed, add_rule, add_rules}
use rust_dns_backend.Rules.Growth.{add_rules-Grows}
use rust_dns_backend.Rules.EndToEnd.{In-set_insert}
use rust_dns_backend.Rules.Forms.{add_rule_lem, add_block-rule, head_absent}

unfoldable pub bare_rule : Text → Text
bare_rule d = b'|' ∷ b'|' ∷ d

-- No letter or digit is white space, above ASCII.
abbrev pub UnicodeLaw : Unicode → Type 0
UnicodeLaw u = (c : ℕ) → u.alphanumeric c ≡ true → u.whitespace c ≡ false

all-last : (p : ℕ → Bool) (e : Text) (c : ℕ) → all p (e ++ c ∷ []) ≡ true → p c ≡ true
unfolding all
all-last p [] c h = ground arith
all-last p (x ∷ e) c h = ground (arith, all-last p e c)

module _ ⦃u : Unicode⦄ (law : UnicodeLaw u) where
  domain_char-ne-whitespace : (c : ℕ) → is_domain_char c ≡ true → is_whitespace c ≡ false
  unfolding is_domain_char is_alphanumeric is_whitespace
  domain_char-ne-whitespace c h = ground (arith, law c)

  trim_end-valid : (d : Text) → is_valid_domain d ≡ true → trim_end_by is_whitespace d ≡ d
  trim_end-valid d h = elim (trim_end_by_cases is_whitespace d) [
    | inl e ↦ e
    | inr (e, c, q, k) ↦
        let last : is_domain_char c ≡ true =
          all-last is_domain_char e c (rw q at (valid_chars d h)) in
        let bad = domain_char-ne-whitespace c last in absurd (ground arith)
  ]

  trim-bare_rule : (d : Text) → is_valid_domain d ≡ true → trim (bare_rule d) ≡ bare_rule d
  unfolding bare_rule trim is_whitespace
  trim-bare_rule d h = ground (arith, trim_end-valid d h)

module _ ⦃u : Unicode⦄ where
  bare_rule-ne-all :
      (d : Text)
      → is_valid_domain d ≡ true
      → (text_eq (bare_rule d) (codes "||*^") || text_eq (bare_rule d) (codes "||*")) ≡ false
  unfolding bare_rule text_eq is_valid_domain
  bare_rule-ne-all [] h = cc
  bare_rule-ne-all (c ∷ d) h =
      let no_star = valid_absent b'*' (c ∷ d) (unfold is_domain_char in refl) h in
      let e : (c == b'*') ≡ false = head_absent b'*' c d no_star in ground arith

  strip_options-valid : (d : Text) → is_valid_domain d ≡ true → strip_options d ≡ d
  unfolding strip_options split is_domain_char contains
  strip_options-valid d h =
      let no_caret = split_by_absent (λ x. x == b'^') d (valid_absent b'^' d refl h) in
      let no_dollar = split_by_absent (λ x. x == b'$') d (valid_absent b'$' d refl h) in
      rw (no_caret, no_dollar) refl

  parse-bare_rule :
      (d : Text)
      → is_valid_domain d ≡ true
      → normalize_domain d ≡ d
      → parse_adguard_domain (bare_rule d) ≡ some d
  unfolding parse_adguard_domain bare_rule
  parse-bare_rule d h n =
      rw (strip_options-valid d h, trim_rule_end-valid d h) (checked_domain-valid d h n)

  add_trimmed-bare_rule :
      {S : Type 0} (rs : RuleSet S) (d : Text)
      → (text_eq (bare_rule d) (codes "||*^") || text_eq (bare_rule d) (codes "||*")) ≡ false
      → add_trimmed rs (bare_rule d) ≡ add_block rs (bare_rule d)
  unfolding add_trimmed bare_rule
  add_trimmed-bare_rule rs d h = rw h refl

module _ ⦃u : Unicode⦄ {S : Type 0} where
  In-add_rules :
      (line d : Text) (adds : (rs : RuleSet S) → In d (add_rule rs line).0.blocked_set)
      (rs : RuleSet S) (lines : List Text)
      → In line lines
      → In d (add_rules rs lines).0.blocked_set
  unfolding add_rules
  In-add_rules line d adds rs [] m = elim m [ ]
  In-add_rules line d adds rs (l ∷ lines) here =
      (add_rules-Grows (add_rule rs l).0 lines).keeps_blocked d (adds rs)
  In-add_rules line d adds rs (l ∷ lines) (there m) =
      In-add_rules line d adds (add_rule rs l).0 lines m

  add_rule-bare_rule :
      (law : UnicodeLaw u) (rs : RuleSet S) (d : Text)
      → is_valid_domain d ≡ true
      → normalize_domain d ≡ d
      → add_rule rs (bare_rule d) ≡ (block_domain rs d, true)
  add_rule-bare_rule law rs d h n =
      add_rule_lem rs (bare_rule d) (trim-bare_rule law d h)
      ∙ (add_trimmed-bare_rule rs d (bare_rule-ne-all d h)
          ∙ add_block-rule rs (bare_rule d) d (parse-bare_rule d h n))

  pub In-add_bare_rule :
      (law : UnicodeLaw u) (d : Text)
      → is_valid_domain d ≡ true
      → normalize_domain d ≡ d
      → (rs : RuleSet S) (lines : List Text) → In (bare_rule d) lines
      → In d (add_rules rs lines).0.blocked_set
  unfolding block_domain
  In-add_bare_rule law d h n =
      In-add_rules (bare_rule d) d
        (λ rs. rw (add_rule-bare_rule law rs d h n) (In-set_insert d rs.blocked_set))
