-- ===== src/Validators/Accepted.antt =====
-- src/api/validators/rule.rs with src/dns/rules.rs: what the validator accepts, the rule set takes.
use rust_dns_backend.Base.{
  ℕ, suc, ◌≡◌, ◌≢◌, refl, ap, sym, ◌∙◌, true, false, none, some, [], ◌∷◌, ◌++◌, ◌==◌, any, length,
  arith, here,
}
use rust_dns_backend.Text.{
  Text, Unicode, codes, text_eq, strip_prefix, starts_with, trim_end, trim_end_by, trim, contains,
}
use rust_dns_backend.RuleSyntax.{normalize_domain, localhost}
use rust_dns_backend.Rules.{
  RuleSet, RegexCrate, block_domain, add_rule, add_rules, build, match_domain, query_name, blocked,
}
use rust_dns_backend.Rules.Match.{IsAncestor}
use rust_dns_backend.Rules.Decide.{Exempt}
use rust_dns_backend.Rules.EndToEnd.{block_rule-blocks}
use rust_dns_backend.Rules.Forms.{block_rule, trim-block_rule, add_rule-block_rule}
use rust_dns_backend.Validators.{Verdict, validate_domain}
use rust_dns_backend.Validators.Rule.{
  trim_start_text, in_rule, domain_part, validate_filter_rule, validate_trimmed_rule, validate_rule,
}
use rust_dns_backend.Validators.Agree.{validate_domain_iff}

trim_end-append : (c : ℕ) (s : Text) → contains c s ≡ false → trim_end c (s ++ c ∷ []) ≡ s
unfolding trim_end trim_end_by contains any
trim_end-append c [] h = ground arith
trim_end-append c (x ∷ []) h = ground arith
trim_end-append c (x ∷ y ∷ s) h =
    let rest : any (λ (z : ℕ). z == c) (y ∷ s) ≡ false = ground arith in
    rw (trim_end-append c (y ∷ s) rest)

strip_bars_absent :
    (s : Text) → contains b'|' s ≡ false → strip_prefix (codes "||") (s ++ b'^' ∷ []) ≡ none
unfolding strip_prefix contains any
strip_bars_absent [] h = refl
strip_bars_absent (c ∷ s) h = ground arith

trim_start_text_once :
    (fuel : ℕ) (p s t : Text)
    → strip_prefix p s ≡ some t
    → strip_prefix p t ≡ none
    → trim_start_text (suc (suc fuel)) p s ≡ t
unfolding trim_start_text
trim_start_text_once fuel p s t h k = ground (arith, h, k)

domain_part-block_rule :
    ⦃u : Unicode⦄ (d : Text)
    → contains b'|' d ≡ false
    → contains b'^' d ≡ false
    → domain_part (codes "||") (block_rule d) ≡ d
unfolding domain_part block_rule
domain_part-block_rule d no_bar no_caret =
    let inner = d ++ b'^' ∷ [] in
    rw
      (trim_start_text_once (length inner) (codes "||") (b'|' ∷ b'|' ∷ inner) inner
        (unfold strip_prefix in refl) (strip_bars_absent d no_bar))
      (trim_end-append b'^' d no_caret)

in_rule-none : (v : Verdict) → in_rule v ≡ none → v ≡ none
in_rule-none none h = refl
in_rule-none (some e) h = cc

-- A name in normal form, without the marks of the rule syntax.
pub record IsPlainName ⦃u : Unicode⦄ (d : Text) : Type 0 where
  pub trimmed : trim d ≡ d
  pub no_end_dot : trim_end b'.' d ≡ d
  pub normal : normalize_domain d ≡ d
  pub no_star : contains b'*' d ≡ false
  pub no_bar : contains b'|' d ≡ false
  pub no_caret : contains b'^' d ≡ false
  pub not_local : d ≢ localhost

module _ ⦃u : Unicode⦄ where
  validate_filter_rule-block_rule :
      (d : Text) → IsPlainName d → validate_filter_rule (block_rule d) ≡ in_rule (validate_domain d)
  unfolding validate_filter_rule block_rule starts_with strip_prefix
  validate_filter_rule-block_rule d p =
      ap (λ (s : Text). in_rule (validate_domain s))
        (unfold block_rule in domain_part-block_rule d p.no_bar p.no_caret)

  validate_rule-block_rule :
      (d : Text)
      → validate_rule (codes "filter") (block_rule d) ≡ validate_filter_rule (block_rule d)
  unfolding validate_rule
  validate_rule-block_rule d =
      ap (validate_trimmed_rule (codes "filter")) (trim-block_rule d)
      ∙ (unfold validate_trimmed_rule block_rule text_eq in refl)

  -- A rule `||d^` that the validator accepts is taken by the rule set, which adds `d` to its set of
  -- blocked domains and changes nothing else; once its patterns are compiled, it blocks `d` and every
  -- name below it, unless an allow rule covers the name. `d` is in normal form, holds none of the marks
  -- of the rule syntax and is not `localhost`; the name is the query without its trailing dots, in
  -- lower case.
  pub validate_rule-add_rule :
      {S : Type 0} ⦃re : RegexCrate S⦄ (rs : RuleSet S) (d query : Text)
      → IsPlainName d
      → validate_rule (codes "filter") (block_rule d) ≡ none
      → IsAncestor d (query_name query)
      → ¬ Exempt (build (add_rule rs (block_rule d)).0) (query_name query)
      → (add_rule rs (block_rule d) ≡ (block_domain rs d, true))
        × (match_domain (build (add_rule rs (block_rule d)).0) query ≡ blocked)
  unfolding add_rules
  validate_rule-add_rule rs d query p h below free =
      let accepted : validate_domain d ≡ none =
        in_rule-none (validate_domain d)
          (sym (validate_filter_rule-block_rule d p) ∙ (sym (validate_rule-block_rule d) ∙ h)) in
      let valid = (validate_domain_iff d p.trimmed p.no_end_dot p.no_star p.not_local).0 accepted in
      (
        add_rule-block_rule rs d valid p.normal,
        block_rule-blocks d valid p.normal rs (block_rule d ∷ []) query here below free,
      )
