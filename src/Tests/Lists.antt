-- ===== src/Tests/Lists.antt =====
-- src/dns/subscription.rs, src/api/validators, src/api/middleware/audit.rs and client_ip.rs at fixed
-- inputs.
use rust_dns_backend.Base.{
  ◌≡◌, refl, sym, ◌∙◌, true, none, some, List, [], ◌∷◌, ◌++◌, arith, length, inl, here, there,
  if◌then◌else◌, ◌⊎◌, all, any,
}
use rust_dns_backend.Text.{Text, codes, text_eq, trim, trim_end, trim_end_by, contains}
use rust_dns_backend.Text.Split.{lines, split, strip_return}
use rust_dns_backend.Net.{v4}
use rust_dns_backend.RuleSyntax.{normalize_domain, localhost}
use rust_dns_backend.Rules.{
  RuleSet, new_rules, add_rule, add_rules, block_domain, build, match_domain, query_name, allowed,
  blocked,
}
use rust_dns_backend.Rules.Decide.{Exempt, match_domain_lem}
use rust_dns_backend.Rules.Match.{IsAncestor}
use rust_dns_backend.Rules.Forms.{block_rule}
use rust_dns_backend.Subscription.{
  is_ignored, is_rule_char, is_rule_name, is_hosts_format, parse_adguard_rules, parse_hosts_rules,
}
use rust_dns_backend.Subscription.Guard.{
  HttpCrate, content, validate_filter_url, fetch_remote_filter,
}
use rust_dns_backend.Subscription.Sync.{
  RuleRow, RuleTables, Outcomes, store_list, all_rules, rows_of,
}
use rust_dns_backend.Subscription.Replaced.{AreFresh, Keeps, store_list-replaced}
use rust_dns_backend.Subscription.Listed.{Lists, rule_line, list_line-blocks}
use rust_dns_backend.Validators.{validate_domain}
use rust_dns_backend.Validators.Rule.{validate_rule}
use rust_dns_backend.Validators.Accepted.{IsPlainName, validate_rule-add_rule}
use rust_dns_backend.Audit.{delete, derive_resource_action}
use rust_dns_backend.ClientIp.{Origin, client_ip}
use rust_dns_backend.Tests.Fixtures.{differ, ascii, literal_regex}
use rust_dns_backend.Tests.Rules.{valid_example, normal_example, below_example}

abbrev name : Text
name = codes "example.com"

abbrev adguard_list : Text
adguard_list =
    codes "! title"
    ++ 10 ∷ codes "||example.com^$third-party"
    ++ 13 ∷ 10 ∷ codes "@@||good.example.com^"

list_run :
    parse_adguard_rules adguard_list
    ≡ (codes "||example.com^" ∷ [], codes "@@||good.example.com^" ∷ [])
unfolding parse_adguard_rules lines split strip_return
list_run = refl

hosts_rules_run :
    parse_hosts_rules (codes "127.0.0.1 localhost" ++ 10 ∷ codes "0.0.0.0 Tracker.org")
    ≡ codes "||Tracker.org^" ∷ []
unfolding parse_hosts_rules lines split strip_return
hosts_rules_run = refl

abbrev empty_set : RuleSet (List Text)
empty_set = new_rules

abbrev loaded : RuleSet (List Text)
loaded = build (add_rules empty_set (all_rules adguard_list)).0

abbrev query : Text
query = codes "Ads.Example.com."

loaded_run : match_domain loaded query ≡ blocked
unfolding match_domain build add_rules new_rules all_rules lines split strip_return
loaded_run = refl

not-Exempt : ¬ Exempt loaded (query_name query)
not-Exempt x =
    let e : blocked ≡ allowed = sym loaded_run ∙ (match_domain_lem loaded query).0.1 x in cc

in_list : Lists adguard_list name
unfolding lines split rule_line is_ignored is_hosts_format trim is_rule_char is_rule_name all
    strip_return
in_list = record {
  mark = b'^';
  options = codes "$third-party";
  line = codes "||example.com^$third-party";
  listed = record { chars = refl; ends = refl; is_mark = inl refl };
  line_in = there here;
  trimmed = refl;
  not_ignored = refl;
  adguard = refl;
}

list_line-blocks_example :
    match_domain (build (add_rules empty_set (all_rules adguard_list)).0) query ≡ blocked
list_line-blocks_example =
    list_line-blocks adguard_list name empty_set query in_list valid_example normal_example
      below_example not-Exempt

abbrev outcomes : Outcomes
outcomes = record {
  begun = true;
  deleted = true;
  inserted = λ i. true;
  committed = true;
  updated = true;
  uuid = λ i. i ∷ [];
  now = codes "now";
}

abbrev row_by : Text → Text → RuleRow
row_by creator rule = record {
  row_id = codes "old";
  rule = rule;
  is_enabled = true;
  created_by = creator;
  created_at = codes "then";
}

abbrev tables : RuleTables
tables = record {
  rules =
      row_by (codes "filter:7") (codes "||a.com^") ∷ row_by (codes "alice") (codes "||b.com^") ∷ [];
  lists = (codes "7", (1, codes "then")) ∷ [];
}

outcomes_fresh : AreFresh outcomes tables.rules
unfolding text_eq any
outcomes_fresh = record { distinct = λ i j e. cc; unused = λ i. ground arith }

abbrev two_rules : List Text
two_rules = codes "||c.com^" ∷ codes "||d.com^" ∷ []

store_list-replaced_example :
    (((store_list tables (codes "7") outcomes two_rules).0 ≡ tables)
      × ((store_list tables (codes "7") outcomes two_rules).1 ≡ none))
    ⊎ ((kept : List RuleRow) × Keeps (codes "filter:7") tables.rules kept
        × ((store_list tables (codes "7") outcomes two_rules).0.rules
            ≡ kept ++ rows_of outcomes (codes "filter:7") 0 two_rules)
        × ((store_list tables (codes "7") outcomes two_rules).1
            ≡ (if outcomes.updated then some (length two_rules) else none)))
store_list-replaced_example =
    store_list-replaced tables (codes "7") outcomes two_rules outcomes_fresh

stored_run : length (store_list tables (codes "7") outcomes two_rules).0.rules ≡ 3
unfolding store_list
stored_run = refl

-- A URL is its host.
instance abbrev hosts_only : HttpCrate
hosts_only = record {
  parse_url = λ url. some (codes "https", some url);
  send = λ url. some (record { success = true; content_length = none; body = some (codes "x") });
  from_utf8 = some;
}

loopback_v6_run : validate_filter_url (codes "[::1]") ≡ none
unfolding validate_filter_url
loopback_v6_run = refl

fetched_run : fetch_remote_filter (codes "lists.example.com") ≡ content (codes "x")
unfolding fetch_remote_filter validate_filter_url
fetched_run = refl

plain_name : IsPlainName name
unfolding trim trim_end trim_end_by contains any normalize_domain text_eq
plain_name = record {
  trimmed = refl;
  no_end_dot = refl;
  normal = refl;
  no_star = refl;
  no_bar = refl;
  no_caret = refl;
  not_local = differ name localhost refl;
}

accepted_run : validate_rule (codes "filter") (block_rule name) ≡ none
unfolding validate_rule block_rule
accepted_run = refl

name_below : IsAncestor name (query_name name)
unfolding query_name
name_below = inl refl

blocked_name_run : match_domain (build (add_rule empty_set (block_rule name)).0) name ≡ blocked
unfolding match_domain build add_rule new_rules block_rule
blocked_name_run = refl

name-not-Exempt : ¬ Exempt (build (add_rule empty_set (block_rule name)).0) (query_name name)
name-not-Exempt x =
    let e : blocked ≡ allowed =
      sym blocked_name_run
      ∙ (match_domain_lem (build (add_rule empty_set (block_rule name)).0) name).0.1 x in
    cc

validate_rule-add_rule_example :
    (add_rule empty_set (block_rule name) ≡ (block_domain empty_set name, true))
    × (match_domain (build (add_rule empty_set (block_rule name)).0) name ≡ blocked)
validate_rule-add_rule_example =
    validate_rule-add_rule empty_set name name plain_name accepted_run name_below name-not-Exempt

inner_star_run : validate_domain (codes "a.*.com") ≡ none
unfolding validate_domain
inner_star_run = refl

audit_run :
    derive_resource_action (codes "/api/v1/rules/42") delete ≡ (codes "rules", codes "delete")
unfolding derive_resource_action split
audit_run = refl

abbrev forged : Origin
forged = record {
  forwarded_for = some (codes "10.0.0.1, 10.0.0.2");
  real_ip = none;
  peer = some (v4 134744072);
}

-- A peer outside is taken at its own address, and one on the machine at the address that it names.
forged_run : client_ip (λ ip. codes "8.8.8.8") forged ≡ codes "8.8.8.8"
unfolding client_ip
forged_run = refl

proxied_run :
    client_ip (λ ip. codes "127.0.0.1") (record forged { peer = some (v4 2130706433) })
    ≡ codes "10.0.0.1"
unfolding client_ip split trim
proxied_run = refl
