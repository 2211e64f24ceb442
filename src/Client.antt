-- ===== src/Client.antt =====
-- src/dns/handler.rs, `resolve_client_config` and the two loaders of group rules and rewrites: the
-- configuration of the client that a query comes from.
pub mod Laws
use rust_dns_backend.Base.{
  Bool, true, false, Option, none, some, List, [], ◌∷◌, any, is_nil, if◌then◌else◌, ℤ, pos, eq_ℤ,
}
use rust_dns_backend.Text.{Text, Unicode, text_eq}
use rust_dns_backend.Net.{parse_ip}
use rust_dns_backend.Map.{Map}
use rust_dns_backend.Acl.{IpnetCrate}
use rust_dns_backend.Rules.{RuleSet, new_rules, add_rules}
use rust_dns_backend.Filter.{insert_rewrites}

pub record ClientConfig (S : Type 0) : Type 0 where
  pub filter_enabled : Bool
  pub upstream_urls : Option (List Text)
  pub group_ruleset : Option (RuleSet S)
  pub group_rewrites : Option (Map Text)

abbrev pub default_config : {S : Type 0} → ClientConfig S
default_config = record {
  filter_enabled = true;
  upstream_urls = none;
  group_ruleset = none;
  group_rewrites = none;
}

-- A row of `clients`; `identifiers` and `upstreams` are JSON arrays.
pub record ClientRow : Type 0 where
  pub id : Text
  pub identifiers : Text
  pub filter_enabled : ℤ
  pub upstreams : Option Text

-- What the lookup of a client reads: the rows of `clients`, and the rows that the joins over its
-- groups give for a client, by group priority (`none` where a query fails). `json_values` is the
-- parser of a JSON array, with the string that each value is, if it is one.
pub record ClientDb : Type 0 where
  pub clients : Option (List ClientRow)
  pub group_rules : Text → Option (List Text)
  pub group_rewrites : Text → Option (List (Text × Text))
  pub json_values : Text → Option (List (Option Text))
  pub json_strings : Text → Option (List Text)

module _ {N : Type 0} (ipnet : IpnetCrate N) where
  -- The closure of `any` over the identifiers: the exact address, or a network around it.
  unfoldable pub is_identified : Text → Option Text → Bool
  unfolding text_eq
  is_identified client_ip id =
      let id_str : Text = elim id [ none ↦ [] | some s ↦ s ] in
      if text_eq id_str client_ip then true else elim (ipnet.net_from_str id_str) [
        | none ↦ false
        | some network ↦ elim (parse_ip client_ip) [
          | none ↦ false
          | some ip ↦ ipnet.net_contains network ip
        ]
      ]

  unfoldable pub is_client : ClientDb → Text → ClientRow → Bool
  unfolding any
  is_client db client_ip row = elim (db.json_values row.identifiers) [
    | none ↦ false
    | some identifiers ↦ any (is_identified client_ip) identifiers
  ]

  -- The loop with its `break`.
  unfoldable pub find_client : ClientDb → Text → List ClientRow → Option ClientRow
  find_client db client_ip [] = none
  find_client db client_ip (row ∷ rows) =
      if is_client db client_ip row then some row else find_client db client_ip rows

-- The addresses of a client's own upstreams, if there are any.
unfoldable pub own_upstreams : ClientDb → ClientRow → Option (List Text)
own_upstreams db row = elim row.upstreams [
  | none ↦ none
  | some s ↦ elim (db.json_strings s) [
    | none ↦ none
    | some urls ↦ if is_nil urls then none else some urls
  ]
]

module _ ⦃u : Unicode⦄ {S : Type 0} where
  -- The rules are added, and their wildcard patterns are not compiled.
  unfoldable pub load_group_rules_for_client : ClientDb → Text → Option (RuleSet S)
  load_group_rules_for_client db client_id = elim (db.group_rules client_id) [
    | none ↦ none
    | some rows ↦ if is_nil rows then none else some (add_rules new_rules rows).0
  ]

unfoldable pub load_group_rewrites_for_client : ⦃u : Unicode⦄ → ClientDb → Text → Option (Map Text)
load_group_rewrites_for_client db client_id = elim (db.group_rewrites client_id) [
  | none ↦ none
  | some rows ↦ if is_nil rows then none else some (insert_rewrites rows [])
]

module _ ⦃u : Unicode⦄ {S N : Type 0} (ipnet : IpnetCrate N) where
  unfoldable pub resolve_client_config : ClientDb → Text → ClientConfig S
  resolve_client_config db client_ip = elim db.clients [
    | none ↦ default_config
    | some rows ↦ elim (find_client ipnet db client_ip rows) [
      | none ↦ default_config
      | some row ↦ record {
        filter_enabled = eq_ℤ row.filter_enabled (pos 1);
        upstream_urls = own_upstreams db row;
        group_ruleset = load_group_rules_for_client db row.id;
        group_rewrites = load_group_rewrites_for_client db row.id;
      }
    ]
  ]
