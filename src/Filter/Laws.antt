-- ===== src/Filter/Laws.antt =====
-- src/dns/filter.rs: what an engine answers after a reload, by the rows of the database.
use rust_dns_backend.Base.{
  ◌≡◌, refl, sym, ap, ◌∙◌, inl, inr, true, none, some, List, [], ◌∷◌, ◌++◌, arith, if◌then◌else◌,
  Bool-cases, Option-cases, In, here, there, keep_if, In-append_left,
}
use rust_dns_backend.Text.{Text, Unicode, codes, to_lowercase}
use rust_dns_backend.RuleSyntax.{normalize_domain, is_valid_domain}
use rust_dns_backend.Rules.{
  RegexCrate, RuleSet, new_rules, add_rule, add_rules, build, query_name, match_domain,
}
use rust_dns_backend.Rules.Match.{IsAncestor}
use rust_dns_backend.Rules.Decide.{Exempt, is_blocked_iff}
use rust_dns_backend.Rules.Lines.{
  IsWellFormed, new_rules-IsWellFormed, add_rule-IsWellFormed, add_rules-IsWellFormed,
  build-IsWellFormed,
}
use rust_dns_backend.Rules.Forms.{block_rule}
use rust_dns_backend.Rules.EndToEnd.{block_rule-blocks}
use rust_dns_backend.Filter.Rewrites.{
  or_else, last_answer, insert_rewrites_lem, insert_rewrites-new,
}
use rust_dns_backend.Filter.{
  FilterEngine, FilterDb, CustomRule, is_current, current_rules, is_on, safe_search_rules,
  parental_rules, insert_rewrites, new_rewrites, load, reload, engine_is_blocked, add_rule_live,
  check_rewrite, is_blocked,
}

In-current_rules :
    (db : FilterDb) (rows : List CustomRule) {r : CustomRule}
    → In r rows
    → is_current db r ≡ true
    → In r.rule (current_rules db rows)
unfolding current_rules keep_if
In-current_rules db [] i h = elim i [ ]
In-current_rules db (r ∷ rows) here h = rw h here
In-current_rules db (x ∷ rows) (there i) h = elim (Bool-cases (is_current db x)) [
  | inl e ↦ rw e (there (In-current_rules db rows i h))
  | inr e ↦ rw e (In-current_rules db rows i h)
]

module _ ⦃u : Unicode⦄ {S : Type 0} where
  add_rules-append :
      (rs : RuleSet S) (xs ys : List Text)
      → (add_rules (add_rules rs xs).0 ys).0 ≡ (add_rules rs (xs ++ ys)).0
  unfolding add_rules
  add_rules-append rs [] ys = refl
  add_rules-append rs (x ∷ xs) ys = add_rules-append (add_rule rs x).0 xs ys

module _ ⦃u : Unicode⦄ {S : Type 0} ⦃re : RegexCrate S⦄ where
  abbrev loaded : FilterDb → List CustomRule → List (Text × Text) → List Text → FilterEngine S
  loaded db rules rewrites lines = record {
    rules = build (add_rules (add_rules new_rules (current_rules db rules)).0 lines).0;
    rewrites = new_rewrites db rewrites;
  }

  -- What a successful load has read and made.
  pub record Loaded (db : FilterDb) (engine : FilterEngine S) : Type 0 where
    pub custom_rules : List CustomRule
    pub rewrites : List (Text × Text)
    pub parental : List Text
    pub read_rules : db.custom_rules ≡ some custom_rules
    pub read_rewrites : db.dns_rewrites ≡ some rewrites
    pub read_parental : parental_rules db ≡ some parental
    pub made_rules :
        engine.rules ≡ build (add_rules new_rules (current_rules db custom_rules ++ parental)).0
    pub made_rewrites : engine.rewrites ≡ new_rewrites db rewrites

  pub load_inv :
      (db : FilterDb) {engine : FilterEngine S} → load db ≡ some engine → Loaded db engine
  unfolding load
  load_inv db {engine} h = elim (Option-cases db.custom_rules) [
    | inl e ↦ absurd (ground arith)
    | inr (rules, e) ↦ elim (Option-cases db.filter_list_count) [
      | inl k ↦ absurd (ground arith)
      | inr (n, k) ↦ elim (Option-cases db.dns_rewrites) [
        | inl j ↦ absurd (ground arith)
        | inr (rewrites, j) ↦ elim (Option-cases (parental_rules db)) [
          | inl i ↦ absurd (ground arith)
          | inr (lines, i) ↦
              let made : loaded db rules rewrites lines ≡ engine = ground arith in
              record {
                custom_rules = rules;
                rewrites = rewrites;
                parental = lines;
                read_rules = e;
                read_rewrites = j;
                read_parental = i;
                made_rules =
                    ap (λ (x : FilterEngine S). x.rules) (sym made)
                    ∙ ap build (add_rules-append new_rules (current_rules db rules) lines);
                made_rewrites = ap (λ (x : FilterEngine S). x.rewrites) (sym made);
              }
        ]
      ]
    ]
  ]

  pub reload-load :
      (db : FilterDb) (engine : FilterEngine S) {after : FilterEngine S}
      → reload db engine ≡ (true, after)
      → load db ≡ some after
  unfolding reload
  reload-load db engine h = ground arith

  -- After a successful reload that read these rewrite rows, a name is rewritten by the safe search
  -- table, if that is switched on and has the name, and otherwise by the last row that has it; names
  -- are compared in lower case, and nothing of the engine before the reload counts.
  pub reload-check_rewrite :
      (db : FilterDb) (engine after : FilterEngine S) (rows : List (Text × Text)) (domain : Text)
      → reload db engine ≡ (true, after)
      → db.dns_rewrites ≡ some rows
      → check_rewrite after domain
        ≡ or_else
            (if is_on db (codes "safe_search_enabled")
              then last_answer (to_lowercase domain) safe_search_rules
              else none)
            (last_answer (to_lowercase domain) rows)
  unfolding check_rewrite new_rewrites
  reload-check_rewrite db engine after rows domain h k =
      let l = load_inv db (reload-load db engine h) in
      let same : l.rewrites ≡ rows = ground (arith, l.read_rewrites) in
      rw (l.made_rewrites, same)
        (elim (Bool-cases (is_on db (codes "safe_search_enabled"))) [
          | inl e ↦ rw e (
              rw
                (
                  insert_rewrites_lem (to_lowercase domain) safe_search_rules
                      (insert_rewrites rows []),
                  insert_rewrites-new (to_lowercase domain) rows,
                )
                refl)
          | inr e ↦ rw e (insert_rewrites-new (to_lowercase domain) rows)
        ])

  made_blocks :
      (d : Text) (valid : is_valid_domain d ≡ true) (normal : normalize_domain d ≡ d)
      → (rs : RuleSet S) (lines : List Text) (query : Text)
      → rs ≡ build (add_rules new_rules lines).0
      → In (block_rule d) lines
      → IsAncestor d (query_name query)
      → ¬ Exempt rs (query_name query)
      → is_blocked rs query ≡ true
  made_blocks d valid normal rs lines query made listed below free = (is_blocked_iff rs query).1 (
      ap (λ (x : RuleSet S). match_domain x query) made
      ∙ block_rule-blocks d valid normal new_rules lines query listed below (λ x. free (rw made x)))

  -- After a successful reload, a rule `||d^` among the rows that are enabled and not expired blocks `d`
  -- and every name below it, unless an allow rule covers the name. `d` is a valid domain in normal
  -- form, and the name is the query without its trailing dots, in lower case.
  pub reload-blocks :
      (d : Text) (valid : is_valid_domain d ≡ true) (normal : normalize_domain d ≡ d)
      → (db : FilterDb) (engine after : FilterEngine S) (rows : List CustomRule) (r : CustomRule)
        (query : Text)
      → reload db engine ≡ (true, after)
      → db.custom_rules ≡ some rows
      → In r rows
      → is_current db r ≡ true
      → r.rule ≡ block_rule d
      → IsAncestor d (query_name query)
      → ¬ Exempt after.rules (query_name query)
      → engine_is_blocked after query ≡ true
  unfolding engine_is_blocked
  reload-blocks d valid normal db engine after rows r query h k i current is_rule below free =
      let l = load_inv db (reload-load db engine h) in
      let same : l.custom_rules ≡ rows = ground (arith, l.read_rules) in
      let lines = current_rules db l.custom_rules ++ l.parental in
      let listed : In (block_rule d) lines =
        In-append_left (current_rules db l.custom_rules) l.parental
          (rw (sym is_rule, same) (In-current_rules db rows i current)) in
      made_blocks d valid normal after.rules lines query l.made_rules listed below free

  -- Every engine that a reload or a live rule leaves has well-formed rules, if it had before.
  pub reload-IsWellFormed :
      (db : FilterDb) (engine : FilterEngine S) (rule : Text)
      → IsWellFormed engine.rules
      → IsWellFormed (reload db engine).1.rules × IsWellFormed (add_rule_live engine rule).rules
  unfolding reload add_rule_live
  reload-IsWellFormed db engine rule w = (
    elim (Option-cases (load {S = S} ⦃re = re⦄ db)) [
      | inl e ↦ rw (e, reload) w
      | inr (x, e) ↦
          let l = load_inv db e in
          rw (e, reload)
            (rw l.made_rules
              (build-IsWellFormed _ (add_rules-IsWellFormed new_rules _ new_rules-IsWellFormed)))
    ],
    build-IsWellFormed (add_rule engine.rules rule).0 (add_rule-IsWellFormed engine.rules rule w),
  )
