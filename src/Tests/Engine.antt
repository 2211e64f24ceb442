-- ===== src/Tests/Engine.antt =====
-- src/dns/filter.rs and the client configuration of src/dns/handler.rs at fixed inputs.
use rust_dns_backend.Base.{
  ◌≡◌, refl, true, false, none, some, List, [], ◌∷◌, here, there, if◌then◌else◌, pos, sym, ◌∙◌, In,
  inr,
}
use rust_dns_backend.Text.{Text, codes, text_eq}
use rust_dns_backend.Rules.{
  RuleSet, new_rules, match_domain, query_name, blocked, allowed, add_rules, build,
}
use rust_dns_backend.Rules.Decide.{Exempt, match_domain_lem}
use rust_dns_backend.Rules.Forms.{block_rule}
use rust_dns_backend.Filter.{
  protection_level, FilterEngine, FilterDb, CustomRule, is_current, current_rules, is_on,
  parental_rules, load, reload, engine_is_blocked,
}
use rust_dns_backend.RuleSyntax.{is_valid_domain, normalize_domain}
use rust_dns_backend.Rules.Match.{IsAncestor}
use rust_dns_backend.Rules.Bare.{UnicodeLaw}
use rust_dns_backend.Filter.Parental.{reload-parental}
use rust_dns_backend.Filter.Laws.{reload-blocks}
use rust_dns_backend.Client.{
  is_identified, ClientDb, ClientRow, is_client, find_client, load_group_rules_for_client,
}
use rust_dns_backend.Text.Split.{split}
use rust_dns_backend.Net.{parse_ip, parse_ipv4}
use rust_dns_backend.Tests.Fixtures.{ascii, literal_regex, host_nets}
use rust_dns_backend.Tests.Rules.{example_com, valid_example, normal_example, below_example}

abbrev pub empty_engine : FilterEngine (List Text)
empty_engine = record { rules = new_rules; rewrites = [] }

abbrev custom : CustomRule
custom = record { rule = block_rule example_com; is_enabled = true; expires_at = none }

abbrev off : CustomRule
off = record { rule = codes "||example.org^"; is_enabled = false; expires_at = none }

-- Safe search is on, and parental control blocks one domain.
abbrev db : FilterDb
db = record {
  custom_rules = some (off ∷ custom ∷ []);
  filter_list_count = some 0;
  dns_rewrites =
      some ((codes "Bing.com", codes "1.2.3.4") ∷ (codes "nas.lan", codes "10.0.0.2") ∷ []);
  setting = λ key.
      if text_eq key (codes "parental_control_level")
      then some (codes "basic")
      else some (codes "true");
  parental_control_categories = some ((codes "basic", codes "[]") ∷ []);
  json_strings = λ s. some (codes "casino.net" ∷ []);
  now_rfc3339 = codes "2026";
  later = λ s t. false;
}

abbrev loaded_engine : FilterEngine (List Text)
loaded_engine = (reload db empty_engine).1

loaded_run : reload db empty_engine ≡ (true, loaded_engine)
unfolding reload load parental_rules is_on text_eq
loaded_run = refl

current_run : is_current db custom ≡ true
unfolding is_current
current_run = refl

blocked_run : engine_is_blocked loaded_engine (codes "ads.example.com") ≡ true
unfolding engine_is_blocked reload load parental_rules is_on text_eq current_rules build add_rules
    new_rules block_rule
blocked_run = refl

casino_run : engine_is_blocked loaded_engine (codes "www.casino.net") ≡ true
unfolding engine_is_blocked reload load parental_rules is_on text_eq current_rules build add_rules
    new_rules block_rule
casino_run = refl

free_run : match_domain loaded_engine.rules (codes "Ads.Example.com.") ≡ blocked
unfolding match_domain reload load parental_rules is_on text_eq current_rules build add_rules
    new_rules block_rule
free_run = refl

free_example : ¬ Exempt loaded_engine.rules (query_name (codes "Ads.Example.com."))
free_example x =
    let e : blocked ≡ allowed =
      sym free_run ∙ (match_domain_lem loaded_engine.rules (codes "Ads.Example.com.")).0.1 x in
    cc

reload-blocks_example : engine_is_blocked loaded_engine (codes "Ads.Example.com.") ≡ true
reload-blocks_example =
    reload-blocks example_com valid_example normal_example db empty_engine loaded_engine
      (off ∷ custom ∷ []) custom (codes "Ads.Example.com.") loaded_run refl (there here) current_run
      refl below_example free_example

ascii_law : UnicodeLaw ascii
ascii_law c h = refl

casino_valid :
    (is_valid_domain (codes "casino.net") ≡ true)
    × (normalize_domain (codes "casino.net") ≡ codes "casino.net")
unfolding is_valid_domain normalize_domain
casino_valid = (refl, refl)

parental_on :
    (is_on db (codes "parental_control_enabled") ≡ true)
    × (text_eq (protection_level db) (codes "none") ≡ false)
unfolding is_on protection_level text_eq
parental_on = (refl, refl)

basic_row :
    In {A = Text × Text} (protection_level db, codes "[]") ((codes "basic", codes "[]") ∷ [])
unfolding protection_level text_eq
basic_row = here

casino_below : IsAncestor (codes "casino.net") (query_name (codes "www.casino.net"))
unfolding query_name
casino_below = inr (codes "www", refl)

casino_blocked : match_domain loaded_engine.rules (codes "www.casino.net") ≡ blocked
unfolding match_domain reload load parental_rules is_on text_eq current_rules build add_rules
    new_rules block_rule
casino_blocked = refl

casino_free : ¬ Exempt loaded_engine.rules (query_name (codes "www.casino.net"))
casino_free x =
    let e : blocked ≡ allowed =
      sym casino_blocked ∙ (match_domain_lem loaded_engine.rules (codes "www.casino.net")).0.1 x in
    cc

reload-parental_example : engine_is_blocked loaded_engine (codes "www.casino.net") ≡ true
reload-parental_example =
    reload-parental ascii_law (codes "casino.net") casino_valid.0 casino_valid.1 db empty_engine
      loaded_engine ((codes "basic", codes "[]") ∷ []) (codes "[]") (codes "www.casino.net")
      (codes "casino.net" ∷ []) loaded_run parental_on.0 parental_on.1 refl basic_row refl here
      casino_below casino_free

abbrev client : Text → Text → ClientRow
client id identifiers = record {
  id = id;
  identifiers = identifiers;
  filter_enabled = pos 1;
  upstreams = none;
}

abbrev clients : List ClientRow
clients =
    client (codes "1") (codes "10.0.0.9")
    ∷ client (codes "2") (codes "10.0.0.2")
    ∷ client (codes "3") (codes "10.0.0.2")
    ∷ []

-- Each identifier text stands for itself, and every client has two group rules.
abbrev client_db : ClientDb
client_db = record {
  clients = some clients;
  group_rules = λ id. some (block_rule example_com ∷ codes "||ads*.net^" ∷ []);
  group_rewrites = λ id. some [];
  json_values = λ s. some (some s ∷ []);
  json_strings = λ s. none;
}

found_run :
    find_client host_nets client_db (codes "10.0.0.2") clients
    ≡ some (client (codes "2") (codes "10.0.0.2"))
unfolding find_client is_client is_identified parse_ipv4 split parse_ip
found_run = refl

abbrev group_rules : RuleSet (List Text)
group_rules = (add_rules new_rules (block_rule example_com ∷ codes "||ads*.net^" ∷ [])).0

group_run : load_group_rules_for_client client_db (codes "2") ≡ some group_rules
unfolding load_group_rules_for_client
group_run = refl
