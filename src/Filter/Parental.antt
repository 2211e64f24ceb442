-- ===== src/Filter/Parental.antt =====
-- src/dns/filter.rs: what parental control blocks.
use rust_dns_backend.Base.{
  ◌≡◌, refl, sym, inl, inr, true, false, some, List, [], ◌∷◌, ◌++◌, map, arith, Bool-cases,
  Option-cases, In, here, there, In-append_left, In-append_right,
}
use rust_dns_backend.Text.{Text, Unicode, codes, text_eq}
use rust_dns_backend.Text.Laws.{text_eq_refl}
use rust_dns_backend.RuleSyntax.{normalize_domain, is_valid_domain}
use rust_dns_backend.Rules.{
  RegexCrate, RuleSet, new_rules, add_rules, build, is_blocked, query_name,
}
use rust_dns_backend.Rules.Match.{IsAncestor}
use rust_dns_backend.Rules.Decide.{Exempt, match_domain_lem, is_blocked_iff}
use rust_dns_backend.Rules.Bare.{UnicodeLaw, bare_rule, In-add_bare_rule}
use rust_dns_backend.Filter.Laws.{load_inv, reload-load}
use rust_dns_backend.Filter.{
  FilterEngine, FilterDb, is_on, protection_level, category_domains, parental_rules, current_rules,
  reload, engine_is_blocked,
}

In-category_domains :
    (db : FilterDb) (level json d : Text) (rows : List (Text × Text)) (ds : List Text)
    → In (level, json) rows
    → db.json_strings json ≡ some ds
    → In d ds
    → In d (category_domains db level rows)
unfolding category_domains
In-category_domains db level json d [] ds i e m = elim i [ ]
In-category_domains db level json d (r ∷ rows) ds here e m =
    rw (text_eq_refl level) (rw e (In-append_left ds (category_domains db level rows) m))
In-category_domains db level json d ((l, j) ∷ rows) ds (there i) e m =
    let rest = In-category_domains db level json d rows ds i e m in
    elim (Bool-cases (text_eq l level)) [
      | inr k ↦ rw k rest
      | inl k ↦ elim (Option-cases (db.json_strings j)) [
        | inl n ↦ rw (k, n) rest
        | inr (xs, n) ↦ rw (k, n) (In-append_right xs (category_domains db level rows) rest)
      ]
    ]

parental_made :
    (db : FilterDb) (rows : List (Text × Text))
    → is_on db (codes "parental_control_enabled") ≡ true
    → text_eq (protection_level db) (codes "none") ≡ false
    → db.parental_control_categories ≡ some rows
    → parental_rules db
      ≡ some (map (λ d. codes "||" ++ d) (category_domains db (protection_level db) rows))
unfolding parental_rules
parental_made db rows on level read = rw (on, level, read, parental_rules) refl

In-map_bare :
    (d : Text) (ds : List Text) → In d ds → In (bare_rule d) (map (λ x. codes "||" ++ x) ds)
unfolding bare_rule
In-map_bare d [] i = elim i [ ]
In-map_bare d (x ∷ ds) here = here
In-map_bare d (x ∷ ds) (there i) = there (In-map_bare d ds i)

module _ ⦃u : Unicode⦄ {S : Type 0} ⦃re : RegexCrate S⦄ where
  blocks_listed :
      (d : Text) (rs : RuleSet S) (lines : List Text) (query : Text)
      → rs ≡ build (add_rules new_rules lines).0
      → In d (add_rules (new_rules {S = S}) lines).0.blocked_set
      → IsAncestor d (query_name query)
      → ¬ Exempt rs (query_name query)
      → is_blocked rs query ≡ true
  unfolding build
  blocks_listed d rs lines query made i below free =
      let listed : In d rs.blocked_set = rw made i in
      (is_blocked_iff rs query).1
        ((match_domain_lem rs query).1.1 (free, inr (inl (d, below, listed))))

  -- After a successful reload with parental control on, at a level other than "none", each valid domain
  -- in normal form of a category of that level is blocked, with every name below it, unless an allow
  -- rule covers the name. The category's JSON is valid, no letter or digit of the Unicode tables is
  -- white space, and the name is the query without its trailing dots, in lower case.
  pub reload-parental :
      (law : UnicodeLaw u) (d : Text)
      → is_valid_domain d ≡ true
      → normalize_domain d ≡ d
      → (db : FilterDb) (engine after : FilterEngine S) (rows : List (Text × Text))
        (json query : Text) (ds : List Text)
      → reload db engine ≡ (true, after)
      → is_on db (codes "parental_control_enabled") ≡ true
      → text_eq (protection_level db) (codes "none") ≡ false
      → db.parental_control_categories ≡ some rows
      → In (protection_level db, json) rows
      → db.json_strings json ≡ some ds
      → In d ds
      → IsAncestor d (query_name query)
      → ¬ Exempt after.rules (query_name query)
      → engine_is_blocked after query ≡ true
  unfolding engine_is_blocked
  reload-parental law d valid normal db engine after rows json query ds h on level read i e m below
        free =
      let l = load_inv db (reload-load db engine h) in
      let made = parental_made db rows on level read in
      let same : map (λ x. codes "||" ++ x) (category_domains db (protection_level db) rows)
          ≡ l.parental =
        ground (arith, l.read_parental, made) in
      let line : In (bare_rule d) l.parental =
        rw (sym same)
          (In-map_bare d _ (In-category_domains db (protection_level db) json d rows ds i e m)) in
      let lines = current_rules db l.custom_rules ++ l.parental in
      blocks_listed d after.rules lines query l.made_rules
        (In-add_bare_rule law d valid normal new_rules lines
          (In-append_right (current_rules db l.custom_rules) l.parental line))
        below free
