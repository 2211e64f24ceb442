-- ===== src/Client/Laws.antt =====
-- src/dns/handler.rs: which client a query is taken to come from, and what the rules of its groups
-- can answer.
use rust_dns_backend.Base.{
  ◌≡◌, refl, sym, ap, ◌↔◌, ◌⊎◌, inl, inr, Bool, true, false, Option, none, some, List, [], ◌∷◌,
  ◌++◌, arith, Bool-cases, Option-cases, All,
}
use rust_dns_backend.Text.{Text, Unicode, text_eq}
use rust_dns_backend.Text.Laws.{text_eq_iff}
use rust_dns_backend.Net.{IpAddr, parse_ip}
use rust_dns_backend.Acl.{IpnetCrate}
use rust_dns_backend.Rules.{
  blocked, block_domain, allow_domain, block_pattern, allow_pattern, RegexCrate, RuleSet, new_rules,
  add_rule, add_rules, query_name, match_domain,
}
use rust_dns_backend.Rules.Add.{
  Effect, unchanged, everything, block, allow, block_wild, allow_wild, add_rule-Effect,
}
use rust_dns_backend.Rules.Decide.{Listed, PatternListed, match_domain_lem}
use rust_dns_backend.Client.{
  ClientDb, ClientRow, is_identified, is_client, find_client, load_group_rules_for_client,
}

module _ {N : Type 0} (ipnet : IpnetCrate N) where
  -- The identifier is the address as it is written, or a network that holds it.
  abbrev pub Identifies : Text → Text → Type 0
  Identifies client_ip id =
      (id ≡ client_ip)
      ⊎ ((net : N) × (ip : IpAddr) × (ipnet.net_from_str id ≡ some net)
          × (parse_ip client_ip ≡ some ip)
          × (ipnet.net_contains net ip ≡ true))

  is_identified_iff :
      (client_ip id : Text)
      → (is_identified ipnet client_ip (some id) ≡ true) ↔ Identifies client_ip id
  unfolding is_identified
  is_identified_iff client_ip id = elim (Bool-cases (text_eq id client_ip)) [
    | inl e ↦ (λ h. inl ((text_eq_iff id client_ip).0 e), λ h. rw e)
    | inr e ↦ (
      λ h. elim (Option-cases (ipnet.net_from_str id)) [
        | inl k ↦ absurd (ground arith)
        | inr (net, k) ↦ elim (Option-cases (parse_ip client_ip)) [
          | inl j ↦ absurd (ground arith)
          | inr (ip, j) ↦ inr (net, ip, k, j, ground arith)
        ]
      ],
      λ h. elim h [
        | inl k ↦ absurd (ground (arith, (text_eq_iff id client_ip).1 k))
        | inr (net, ip, k, j, c) ↦ rw (e, k, j) c
      ],
    )
  ]

  -- The client found is the first row that has the address among its identifiers.
  pub find_client_first :
      (db : ClientDb) (client_ip : Text) (rows : List ClientRow) {row : ClientRow}
      → find_client ipnet db client_ip rows ≡ some row
      → (before after : List ClientRow) × (rows ≡ before ++ row ∷ after)
        × (is_client ipnet db client_ip row ≡ true)
        × All (λ r. is_client ipnet db client_ip r ≡ false) before
  unfolding find_client
  find_client_first db client_ip [] h = cc
  find_client_first db client_ip (r ∷ rows) {row} h =
      elim (Bool-cases (is_client ipnet db client_ip r)) [
        | inl e ↦ let same : r ≡ row = ground arith in ([], rows, rw same refl, rw (sym same) e, tt)
        | inr e ↦
            let (before, after, split, c, all) = find_client_first db client_ip rows (rw e at h) in
            (r ∷ before, after, ap (λ t. r ∷ t) split, c, (e, all))
      ]

module _ ⦃u : Unicode⦄ {S : Type 0} where
  -- Nothing is compiled.
  abbrev Uncompiled : RuleSet S → Type 0
  Uncompiled rs = (rs.wildcard_blocked_set ≡ none) × (rs.wildcard_allowed_set ≡ none)

  Effect-Uncompiled :
      (rs : RuleSet S) (r : RuleSet S × Bool) → Effect rs r → Uncompiled rs → Uncompiled r.0
  unfolding block_domain allow_domain block_pattern allow_pattern
  Effect-Uncompiled rs r (unchanged e) h = rw e h
  Effect-Uncompiled rs r (everything e) h = rw e h
  Effect-Uncompiled rs r (block d v e) h = rw e h
  Effect-Uncompiled rs r (allow d v e) h = rw e h
  Effect-Uncompiled rs r (block_wild p e) h = rw e (refl, h.1)
  Effect-Uncompiled rs r (allow_wild p e) h = rw e (h.0, refl)

  add_rules-Uncompiled :
      (rs : RuleSet S) (lines : List Text) → Uncompiled rs → Uncompiled (add_rules rs lines).0
  unfolding add_rules
  add_rules-Uncompiled rs [] h = h
  add_rules-Uncompiled rs (line ∷ lines) h =
      add_rules-Uncompiled (add_rule rs line).0 lines
        (Effect-Uncompiled rs (add_rule rs line) (add_rule-Effect rs line) h)

  load_group_rules-Uncompiled :
      (db : ClientDb) (client_id : Text) (rs : RuleSet S)
      → load_group_rules_for_client db client_id ≡ some rs
      → Uncompiled rs
  unfolding load_group_rules_for_client new_rules
  load_group_rules-Uncompiled db client_id rs h = elim (Option-cases (db.group_rules client_id)) [
    | inl e ↦ absurd (ground arith)
    | inr (rows, e) ↦
        let same : (add_rules new_rules rows).0 ≡ rs = ground arith in
        rw (sym same) (add_rules-Uncompiled new_rules rows (refl, refl))
  ]

  module _ ⦃re : RegexCrate S⦄ where
    PatternListed-none : (name : Text) (set : Option S) → set ≡ none → PatternListed name set → ⊥
    PatternListed-none name none e h = h
    PatternListed-none name (some x) e h = absurd (ground arith)

    -- Group rules answer by their plain domains alone, because nothing compiles their wildcard
    -- patterns: a name is blocked exactly when no parent is in the allow set and everything is blocked
    -- or a parent is in the block set.
    pub load_group_rules-match_domain :
        (db : ClientDb) (client_id domain : Text) (rs : RuleSet S)
        → load_group_rules_for_client db client_id ≡ some rs
        → (match_domain rs domain ≡ blocked) ↔ (
            (¬ Listed (query_name domain) rs.allowed_set)
            × ((rs.block_all ≡ true) ⊎ Listed (query_name domain) rs.blocked_set))
    load_group_rules-match_domain db client_id domain rs h =
        let (b, a) = load_group_rules-Uncompiled db client_id rs h in
        let answer = (match_domain_lem rs domain).1 in
        (
          λ k. (
            λ l. (answer.0 k).0 (inl l),
            elim (answer.0 k).1 [
              | inl e ↦ inl e
              | inr (inl l) ↦ inr l
              | inr (inr p) ↦
                  absurd (PatternListed-none (query_name domain) rs.wildcard_blocked_set b p)
            ],
          ),
          λ (n, c). answer.1 (
            λ x. elim x [
              | inl l ↦ n l
              | inr p ↦ PatternListed-none (query_name domain) rs.wildcard_allowed_set a p
            ],
            elim c [ inl e ↦ inl e | inr l ↦ inr (inl l) ],
          ),
        )
