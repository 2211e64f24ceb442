-- ===== src/Filter.antt =====
-- src/dns/filter.rs, `FilterEngine`: the global rules and rewrites, and their load from the database.
pub mod Rewrites
pub mod Laws
pub mod Parental
use rust_dns_backend.Base.{
  ℕ, Bool, true, false, not, ◌&&◌, Option, none, some, List, [], ◌∷◌, ◌++◌, map, if◌then◌else◌,
  keep_if, length,
}
use rust_dns_backend.Text.{Text, Unicode, codes, text_eq, to_lowercase}
use rust_dns_backend.Map.{Map, map_get, map_insert}
use rust_dns_backend.Rules.{
  RegexCrate, RuleSet, new_rules, add_rule, add_rules, build, is_blocked, blocked_count,
  allowed_count,
}

-- `rules` and `rewrites`, which a reload replaces together.
pub record FilterEngine (S : Type 0) : Type 0 where
  pub rules : RuleSet S
  pub rewrites : Map Text

-- The columns of `custom_rules` that the query reads.
pub record CustomRule : Type 0 where
  pub rule : Text
  pub is_enabled : Bool
  pub expires_at : Option Text

-- What a reload reads: the rows of the tables (`none` where a query fails), the value of a setting
-- (`none` where it is missing or its query fails), the parser of JSON arrays of strings, the time,
-- and the database's order of texts.
pub record FilterDb : Type 0 where
  pub custom_rules : Option (List CustomRule)
  pub filter_list_count : Option ℕ
  pub dns_rewrites : Option (List (Text × Text))
  pub setting : Text → Option Text
  pub parental_control_categories : Option (List (Text × Text))
  pub json_strings : Text → Option (List Text)
  pub now_rfc3339 : Text
  pub later : Text → Text → Bool

-- `is_enabled = true AND (expires_at IS NULL OR expires_at > $1)`
unfoldable pub is_current : FilterDb → CustomRule → Bool
is_current db r =
    r.is_enabled && (elim r.expires_at [ none ↦ true | some t ↦ db.later t db.now_rfc3339 ])

unfoldable pub current_rules : FilterDb → List CustomRule → List Text
unfolding is_current keep_if
current_rules db rows = map (λ (r : CustomRule). r.rule) (keep_if (is_current db) rows)

abbrev pub safe_search_rules : List (Text × Text)
safe_search_rules =
    (codes "www.google.com", codes "forcesafesearch.google.com")
    ∷ (codes "google.com", codes "forcesafesearch.google.com")
    ∷ (codes "www.bing.com", codes "strict.bing.com")
    ∷ (codes "bing.com", codes "strict.bing.com")
    ∷ (codes "www.youtube.com", codes "restrict.youtube.com")
    ∷ (codes "youtube.com", codes "restrict.youtube.com")
    ∷ (codes "duckduckgo.com", codes "safe.duckduckgo.com")
    ∷ (codes "yandex.com", codes "family.yandex.com")
    ∷ (codes "www.yandex.com", codes "family.yandex.com")
    ∷ []

-- A setting that is `"true"`.
unfoldable pub is_on : FilterDb → Text → Bool
unfolding text_eq
is_on db key = elim (db.setting key) [ none ↦ false | some value ↦ text_eq value (codes "true") ]

unfoldable pub protection_level : FilterDb → Text
protection_level db = elim (db.setting (codes "parental_control_level")) [
  | none ↦ codes "none"
  | some l ↦ l
]

-- The domains of the categories of a level; a category whose JSON is not valid is skipped.
unfoldable pub category_domains : FilterDb → Text → List (Text × Text) → List Text
unfolding text_eq
category_domains db level [] = []
category_domains db level ((l, domains_json) ∷ rows) =
    let rest = category_domains db level rows in
    if text_eq l level
    then (elim (db.json_strings domains_json) [ none ↦ rest | some ds ↦ ds ++ rest ])
    else rest

-- The lines that parental control adds, or a failed query.
unfoldable pub parental_rules : FilterDb → Option (List Text)
unfolding is_on protection_level category_domains text_eq
parental_rules db =
    if is_on db (codes "parental_control_enabled")
      && not (text_eq (protection_level db) (codes "none"))
    then (elim db.parental_control_categories [
      | none ↦ none
      | some rows ↦
          some (map (λ d. codes "||" ++ d) (category_domains db (protection_level db) rows))
    ])
    else some []

module _ ⦃u : Unicode⦄ where
  -- The loops that insert rewrites under their names in lower case.
  unfoldable pub insert_rewrites : List (Text × Text) → Map Text → Map Text
  insert_rewrites [] rewrites = rewrites
  insert_rewrites ((domain, answer) ∷ rows) rewrites =
      insert_rewrites rows (map_insert (to_lowercase domain) answer rewrites)

  unfoldable pub new_rewrites : FilterDb → List (Text × Text) → Map Text
  new_rewrites db rows =
      if is_on db (codes "safe_search_enabled")
      then insert_rewrites safe_search_rules (insert_rewrites rows [])
      else insert_rewrites rows []

module _ ⦃u : Unicode⦄ {S : Type 0} ⦃re : RegexCrate S⦄ where
  -- The engine that the database stands for; `none` where a query fails.
  unfoldable pub load : FilterDb → Option (FilterEngine S)
  load db = elim db.custom_rules [
    | none ↦ none
    | some rules ↦ elim db.filter_list_count [
      | none ↦ none
      | some _ ↦ elim db.dns_rewrites [
        | none ↦ none
        | some rewrites ↦ elim (parental_rules db) [
          | none ↦ none
          | some lines ↦ some (record {
            rules = build (add_rules (add_rules new_rules (current_rules db rules)).0 lines).0;
            rewrites = new_rewrites db rewrites;
          })
        ]
      ]
    ]
  ]

  -- Whether the reload succeeds, and the engine after it.
  unfoldable pub reload : FilterDb → FilterEngine S → Bool × FilterEngine S
  reload db engine = elim (load db) [ none ↦ (false, engine) | some loaded ↦ (true, loaded) ]

  -- `FilterEngine::is_blocked`
  unfoldable pub engine_is_blocked : FilterEngine S → Text → Bool
  unfolding is_blocked
  engine_is_blocked engine domain = is_blocked engine.rules domain

  unfoldable pub add_rule_live : FilterEngine S → Text → FilterEngine S
  unfolding add_rule build
  add_rule_live engine rule = record engine { rules = build (add_rule engine.rules rule).0 }

unfoldable pub check_rewrite : ⦃u : Unicode⦄ → {S : Type 0} → FilterEngine S → Text → Option Text
unfolding map_get
check_rewrite engine domain = map_get (to_lowercase domain) engine.rewrites

unfoldable pub stats : {S : Type 0} → FilterEngine S → ℕ × ℕ × ℕ
unfolding blocked_count allowed_count
stats engine = (blocked_count engine.rules, allowed_count engine.rules, length engine.rewrites)
