-- ===== src/RuleSyntax/Labels.antt =====
-- src/dns/rules.rs: what the domain parsers return has passed `is_valid_domain`.
use rust_dns_backend.Base.{
  refl, ◌≡◌, true, false, some, [], ◌∷◌, arith, is_nil, List, Option-cases, inl, inr,
}
use rust_dns_backend.Text.{Text, Unicode}
use rust_dns_backend.Text.Split.{split_whitespace}
use rust_dns_backend.RuleSyntax.{
  normalize_domain, is_valid_domain, checked_domain, strip_bars, strip_options, trim_rule_end,
  parse_adguard_domain, hosts_domain, hosts_words, parse_hosts_line,
}

module _ ⦃u : Unicode⦄ where
  pub valid-ne-nil : (d : Text) → is_valid_domain d ≡ true → is_nil d ≡ false
  unfolding is_valid_domain
  valid-ne-nil [] h = cc
  valid-ne-nil (c ∷ d) h = refl

  pub checked_domain_lem :
      (s : Text) {d : Text} → checked_domain s ≡ some d → normalize_domain s ≡ d
  unfolding checked_domain
  checked_domain_lem s h = ground arith

  pub checked_domain_inv :
      (s : Text) {d : Text} → checked_domain s ≡ some d → is_valid_domain d ≡ true
  unfolding checked_domain
  checked_domain_inv s h = ground arith

  pub parse_adguard_domain_inv :
      (rule : Text) {d : Text} → parse_adguard_domain rule ≡ some d → is_valid_domain d ≡ true
  unfolding parse_adguard_domain
  parse_adguard_domain_inv rule {d} h = elim (Option-cases (strip_bars rule)) [
    | inl n ↦ absurd (ground arith)
    | inr (rest, e) ↦ checked_domain_inv (trim_rule_end (strip_options rest)) {d = d} (ground arith)
  ]

  hosts_domain_inv : (s : Text) {d : Text} → hosts_domain s ≡ some d → is_valid_domain d ≡ true
  unfolding hosts_domain
  hosts_domain_inv s {d} h = ground (arith, checked_domain_inv s {d = d})

  hosts_words_inv : (ws : List Text) {d : Text} → hosts_words ws ≡ some d → is_valid_domain d ≡ true
  unfolding hosts_words
  hosts_words_inv [] h = cc
  hosts_words_inv (ip ∷ []) h = cc
  hosts_words_inv (ip ∷ s ∷ rest) {d} h = ground (arith, hosts_domain_inv s {d = d})

  pub parse_hosts_line_inv :
      (line : Text) {d : Text} → parse_hosts_line line ≡ some d → is_valid_domain d ≡ true
  unfolding parse_hosts_line
  parse_hosts_line_inv line h = hosts_words_inv (split_whitespace line) h
