-- ===== src/Tests/Rules.antt =====
-- src/dns/rules.rs: rule lines and names at fixed inputs.
use rust_dns_backend.Base.{
  ◌++◌, ◌≡◌, refl, ◌↔◌, inr, true, false, List, [], ◌∷◌, here, there, sym, ◌∙◌,
}
use rust_dns_backend.Text.{Text, codes}
use rust_dns_backend.RuleSyntax.{wildcard_to_regex, is_valid_domain, normalize_domain}
use rust_dns_backend.Rules.{
  add_rules_from_str, allowed, blocked, no_match, RuleSet, new_rules, add_rule, add_rules, build,
  match_domain, query_name,
}
use rust_dns_backend.Text.Split.{strip_return}
use rust_dns_backend.Rules.Match.{IsAncestor}
use rust_dns_backend.Rules.Decide.{Exempt, Covered, match_domain_lem}
use rust_dns_backend.Rules.Forms.{block_rule, allow_rule}
use rust_dns_backend.Rules.EndToEnd.{block_rule-blocks, allow_rule-allows}
use rust_dns_backend.Tests.Fixtures.{ascii, literal_regex}

abbrev pub example_com : Text
example_com = codes "example.com"

abbrev lines : List Text
lines =
    codes "! a comment"
    ∷ block_rule example_com
    ∷ codes "||ad*.net^"
    ∷ codes "0.0.0.0 Tracker.org"
    ∷ []

abbrev allow_lines : List Text
allow_lines = block_rule example_com ∷ allow_rule example_com ∷ []

abbrev empty : RuleSet (List Text)
empty = new_rules

pub valid_example : is_valid_domain example_com ≡ true
unfolding is_valid_domain
valid_example = refl

pub normal_example : normalize_domain example_com ≡ example_com
unfolding normalize_domain
normal_example = refl

name_example : query_name (codes "Ads.Example.com.") ≡ codes "ads.example.com"
unfolding query_name
name_example = refl

pub below_example : IsAncestor example_com (query_name (codes "Ads.Example.com."))
unfolding query_name
below_example = inr (codes "ads", refl)

blocked_run : match_domain (build (add_rules empty lines).0) (codes "Ads.Example.com.") ≡ blocked
unfolding match_domain build add_rules new_rules block_rule
blocked_run = refl

hosts_run : match_domain (build (add_rules empty lines).0) (codes "www.tracker.org") ≡ blocked
unfolding match_domain build add_rules new_rules block_rule
hosts_run = refl

other_run : match_domain (build (add_rules empty lines).0) (codes "example.org") ≡ no_match
unfolding match_domain build add_rules new_rules block_rule
other_run = refl

free_example : ¬ Exempt (build (add_rules empty lines).0) (query_name (codes "Ads.Example.com."))
free_example x =
    let e : blocked ≡ allowed =
      sym blocked_run
      ∙ (match_domain_lem (build (add_rules empty lines).0) (codes "Ads.Example.com.")).0.1 x in
    cc

match_domain_lem_example :
    ((match_domain (build (add_rules empty lines).0) (codes "Ads.Example.com.") ≡ allowed)
      ↔ Exempt (build (add_rules empty lines).0) (query_name (codes "Ads.Example.com.")))
    × ((match_domain (build (add_rules empty lines).0) (codes "Ads.Example.com.") ≡ blocked) ↔ (
        ¬ Exempt (build (add_rules empty lines).0) (query_name (codes "Ads.Example.com."))
        × Covered (build (add_rules empty lines).0) (query_name (codes "Ads.Example.com."))))
match_domain_lem_example =
    match_domain_lem (build (add_rules empty lines).0) (codes "Ads.Example.com.")

block_rule-blocks_example :
    match_domain (build (add_rules empty lines).0) (codes "Ads.Example.com.") ≡ blocked
block_rule-blocks_example =
    block_rule-blocks example_com valid_example normal_example empty lines
      (codes "Ads.Example.com.") (there here) below_example free_example

allow_rule-allows_example :
    match_domain (build (add_rules empty allow_lines).0) (codes "Ads.Example.com.") ≡ allowed
allow_rule-allows_example =
    allow_rule-allows example_com valid_example normal_example empty allow_lines
      (codes "Ads.Example.com.") (there here) below_example

rejected_run : (add_rule empty (codes "# comment")).1 ≡ false
unfolding add_rule new_rules
rejected_run = refl

count_run : (add_rules empty lines).1 ≡ 3
unfolding add_rules new_rules block_rule
count_run = refl

text_run :
    (add_rules_from_str empty
      (b'#' ∷ b'a' ∷ 13 ∷ 10 ∷ codes "b.com" ++ 10 ∷ 10 ∷ codes "c.com" ++ 10 ∷ [])).1
    ≡ 2
unfolding add_rules_from_str new_rules strip_return
text_run = refl

regex_run : wildcard_to_regex (codes "ad-*.net") ≡ codes "(?i)^ad-[^.]+\\.net$"
unfolding wildcard_to_regex
regex_run = refl
