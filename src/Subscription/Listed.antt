-- ===== src/Subscription/Listed.antt =====
-- src/dns/subscription.rs with src/dns/rules.rs: from a line of a filter list to the answer for a name.
use rust_dns_backend.Base.{
  ℕ, ◌≡◌, refl, ap, ◌∙◌, inl, inr, ◌⊎◌, Bool, true, false, none, some, List, [], ◌∷◌, ◌++◌, arith,
  all, In, here, there, In-append_left,
}
use rust_dns_backend.Text.{Text, Unicode, strip_prefix, trim}
use rust_dns_backend.Text.Split.{lines}
use rust_dns_backend.RuleSyntax.{is_valid_domain, normalize_domain}
use rust_dns_backend.Rules.{
  RegexCrate, RuleSet, add_rules, build, match_domain, query_name, blocked,
}
use rust_dns_backend.Rules.Match.{IsAncestor}
use rust_dns_backend.Rules.Decide.{Exempt}
use rust_dns_backend.Rules.Forms.{block_rule}
use rust_dns_backend.Rules.EndToEnd.{block_rule-blocks}
use rust_dns_backend.Subscription.{
  ListRule, block_line, allow_line, no_rule, span, is_rule_char, is_rule_name, is_option_part,
  captured_name, capture_after, captures_exception, captures_domain_rule, captured_rule, is_ignored,
  list_rule, push_rule, list_rules, parse_adguard_rules, is_hosts_format, parse_list,
}
use rust_dns_backend.Subscription.Sync.{all_rules}

-- `||name^...` or `||name$...`
abbrev pub rule_line : Text → ℕ → Text → Text
rule_line name mark options = b'|' ∷ b'|' ∷ name ++ mark ∷ options

span-append :
    (p : ℕ → Bool) (s : Text) (c : ℕ) (t : Text)
    → all p s ≡ true
    → p c ≡ false
    → span p (s ++ c ∷ t) ≡ (s, c ∷ t)
unfolding span all
span-append p [] c t h k = rw k
span-append p (x ∷ s) c t h k = ground (arith, span-append p s c t)

-- A name as the regular expression for rules reads it, with the mark behind it.
pub record IsListed (name : Text) (mark : ℕ) : Type 0 where
  pub chars : all is_rule_char name ≡ true
  pub ends : is_rule_name name ≡ true
  pub is_mark : (mark ≡ b'^') ⊎ (mark ≡ b'$')

module _ (name : Text) (mark : ℕ) (options : Text) (l : IsListed name mark) where
  mark_outside : is_rule_char mark ≡ false
  unfolding is_rule_char
  mark_outside = elim l.is_mark [ inl e ↦ rw e | inr e ↦ rw e ]

  mark_option : is_option_part (mark ∷ options) ≡ true
  mark_option = elim l.is_mark [ inl e ↦ rw e | inr e ↦ rw e ]

  captured_name-listed : captured_name (name ++ mark ∷ options) ≡ some name
  unfolding captured_name
  captured_name-listed =
      rw (span-append is_rule_char name mark options l.chars mark_outside, l.ends, mark_option)

  captures-listed :
      (captures_exception (rule_line name mark options) ≡ none)
      × (captures_domain_rule (rule_line name mark options) ≡ some name)
  unfolding captures_exception captures_domain_rule capture_after strip_prefix
  captures-listed = (refl, captured_name-listed)

  captured_rule-listed : captured_rule (rule_line name mark options) ≡ block_line (block_rule name)
  unfolding captured_rule
  captured_rule-listed = rw (captures-listed.0, captures-listed.1, captured_rule)

  list_rule-listed :
      is_ignored (rule_line name mark options) ≡ false
      → list_rule (rule_line name mark options) ≡ block_line (block_rule name)
  unfolding list_rule
  list_rule-listed h = rw (h, captured_rule-listed)

In-push_rule :
    (r : Text) (x : ListRule) (rules : List Text × List Text)
    → In r rules.0
    → In r (push_rule x rules).0
In-push_rule r (block_line b) rules m = there m
In-push_rule r (allow_line b) rules m = m
In-push_rule r no_rule rules m = m

module _ ⦃u : Unicode⦄ where
  In-list_rules :
      (r : Text) (line : Text) (ls : List Text)
      → In line ls
      → list_rule (trim line) ≡ block_line r
      → In r (list_rules ls).0
  unfolding list_rules
  In-list_rules r line [] m h = elim m [ ]
  In-list_rules r line (l ∷ ls) here h = rw h here
  In-list_rules r line (l ∷ ls) (there m) h =
      In-push_rule r (list_rule (trim l)) (list_rules ls) (In-list_rules r line ls m h)

  -- A line that blocks, among those of a list that is not in the hosts format.
  pub record Lists (content name : Text) : Type 0 where
    pub mark : ℕ
    pub options : Text
    pub line : Text
    pub listed : IsListed name mark
    pub line_in : In line (lines content)
    pub trimmed : trim line ≡ rule_line name mark options
    pub not_ignored : is_ignored (rule_line name mark options) ≡ false
    pub adguard : is_hosts_format content ≡ false

  In-all_rules :
      (content name : Text) → Lists content name → In (block_rule name) (all_rules content)
  unfolding all_rules parse_list parse_adguard_rules
  In-all_rules content name l =
      let made : list_rule (trim l.line) ≡ block_line (block_rule name) =
        ap list_rule l.trimmed ∙ list_rule-listed name l.mark l.options l.listed l.not_ignored in
      let found : In (block_rule name) (list_rules (lines content)).0 =
        In-list_rules (block_rule name) l.line (lines content) l.line_in made in
      rw l.adguard
        (In-append_left (list_rules (lines content)).0 (list_rules (lines content)).1 found)

  module _ {S : Type 0} ⦃re : RegexCrate S⦄ where
    -- A line `||d^` or `||d$`, with any options behind it, of a filter list blocks `d` and every name
    -- below it once the list's rules are loaded, unless an allow rule covers the name. The list is not in
    -- the hosts format, the line is no cosmetic rule, `d` is a valid domain in normal form, of the
    -- characters that the rule's regular expression takes, and the name is the query without its trailing
    -- dots, in lower case.
    pub list_line-blocks :
        (content d : Text) (rs : RuleSet S) (query : Text)
        → Lists content d
        → is_valid_domain d ≡ true
        → normalize_domain d ≡ d
        → IsAncestor d (query_name query)
        → ¬ Exempt (build (add_rules rs (all_rules content)).0) (query_name query)
        → match_domain (build (add_rules rs (all_rules content)).0) query ≡ blocked
    list_line-blocks content d rs query l valid normal below free =
        block_rule-blocks d valid normal rs (all_rules content) query (In-all_rules content d l)
          below free
