-- ===== src/Rules/Decide.antt =====
-- src/dns/rules.rs, `match_domain`: which of the three answers a name gets.
use rust_dns_backend.Base.{
  ◌≡◌, ◌↔◌, ◌⊎◌, inl, inr, Bool, true, false, Option, none, some, List, ◌∷◌, ◌++◌, arith,
  Bool-cases, In, or_inv, ◌||◌, sym, ◌∙◌,
}
use rust_dns_backend.Text.{Text, Unicode}
use rust_dns_backend.Rules.Match.{IsAncestor, IsAncestor-sub, walk_parents_iff, matches_set_iff}
use rust_dns_backend.Rules.{
  allowed, blocked, RegexCrate, RuleSet, matches_set, matches_wildcard_set, match_normalized,
  query_name, match_domain, is_blocked,
}

-- The name or one of its parents is in the set.
abbrev pub Listed : Text → List Text → Type 0
Listed name set = (d : Text) × IsAncestor d name × In d set

pub Listed-sub :
    {name : Text} (sub : Text) {set : List Text} → Listed name set → Listed (sub ++ b'.' ∷ name) set
Listed-sub sub (d, a, m) = (d, IsAncestor-sub sub a, m)

module _ {S : Type 0} ⦃re : RegexCrate S⦄ where
  -- The name or one of its parents matches a compiled, non-empty set of patterns.
  abbrev pub PatternListed : Text → Option S → Type 0
  PatternListed name none = ⊥
  PatternListed name (some set) =
      (re.set_is_empty set ≡ false) × ((d : Text) × IsAncestor d name × (re.is_match set d ≡ true))

  pub matches_wildcard_set_iff :
      (name : Text) (set : Option S)
      → (matches_wildcard_set name set ≡ true) ↔ PatternListed name set
  unfolding matches_wildcard_set
  matches_wildcard_set_iff name none = (λ h. cc, λ h. absurd h)
  matches_wildcard_set_iff name (some set) = elim (Bool-cases (re.set_is_empty set)) [
    | inl e ↦ (λ h. ground arith, λ h. ground arith)
    | inr e ↦ (
      λ h. (e, (walk_parents_iff (re.is_match set) name).0 (rw e at h)),
      λ h. rw e ((walk_parents_iff (re.is_match set) name).1 h.1),
    )
  ]

  pub PatternListed-sub :
      (name sub : Text) (set : Option S)
      → PatternListed name set
      → PatternListed (sub ++ b'.' ∷ name) set
  PatternListed-sub name sub none h = h
  PatternListed-sub name sub (some set) (e, (d, a, m)) = (e, (d, IsAncestor-sub sub a, m))

  -- An allow rule covers the name, or a block rule does.
  abbrev pub Exempt : RuleSet S → Text → Type 0
  Exempt rs name = Listed name rs.allowed_set ⊎ PatternListed name rs.wildcard_allowed_set

  abbrev pub Covered : RuleSet S → Text → Type 0
  Covered rs name =
      (rs.block_all ≡ true)
      ⊎ (Listed name rs.blocked_set ⊎ PatternListed name rs.wildcard_blocked_set)

  match_normalized-allowed :
      (rs : RuleSet S) (name : Text) → (match_normalized rs name ≡ allowed) ↔ Exempt rs name
  unfolding match_normalized
  match_normalized-allowed rs name =
      let by_name = matches_set_iff name rs.allowed_set in
      let by_pattern = matches_wildcard_set_iff name rs.wildcard_allowed_set in
      (
        λ h. elim (Bool-cases (matches_set name rs.allowed_set)) [
          | inl e ↦ inl (by_name.0 e)
          | inr e ↦ elim (Bool-cases (matches_wildcard_set name rs.wildcard_allowed_set)) [
            | inl f ↦ inr (by_pattern.0 f)
            | inr f ↦ absurd (ground arith)
          ]
        ],
        λ h. elim h [
          | inl l ↦ let e = by_name.1 l in ground arith
          | inr l ↦ let e = by_pattern.1 l in ground arith
        ],
      )

  -- No allow rule fits: both tests of the allow side fail.
  not-Exempt :
      (rs : RuleSet S) (name : Text)
      → ¬ Exempt rs name
      → (matches_set name rs.allowed_set ≡ false)
        × (matches_wildcard_set name rs.wildcard_allowed_set ≡ false)
  not-Exempt rs name n = (
    elim (Bool-cases (matches_set name rs.allowed_set)) [
      | inl e ↦ absurd (n (inl ((matches_set_iff name rs.allowed_set).0 e)))
      | inr e ↦ e
    ],
    elim (Bool-cases (matches_wildcard_set name rs.wildcard_allowed_set)) [
      | inl e ↦ absurd (n (inr ((matches_wildcard_set_iff name rs.wildcard_allowed_set).0 e)))
      | inr e ↦ e
    ],
  )

  covered_test : RuleSet S → Text → Bool
  covered_test rs name =
      rs.block_all
      || (matches_set name rs.blocked_set || matches_wildcard_set name rs.wildcard_blocked_set)

  covered_test_iff :
      (rs : RuleSet S) (name : Text) → (covered_test rs name ≡ true) ↔ Covered rs name
  unfolding covered_test
  covered_test_iff rs name =
      let by_name = matches_set_iff name rs.blocked_set in
      let by_pattern = matches_wildcard_set_iff name rs.wildcard_blocked_set in
      (
        λ h. elim (or_inv rs.block_all _ h) [
          | inl e ↦ inl e
          | inr k ↦ elim (or_inv (matches_set name rs.blocked_set) _ k) [
            | inl e ↦ inr (inl (by_name.0 e))
            | inr e ↦ inr (inr (by_pattern.0 e))
          ]
        ],
        λ h. elim h [
          | inl e ↦ ground arith
          | inr (inl l) ↦ let e = by_name.1 l in ground arith
          | inr (inr l) ↦ let e = by_pattern.1 l in ground arith
        ],
      )

  -- `blocked` is the answer where both allow tests fail and a block test passes.
  blocked_tests :
      (rs : RuleSet S) (name : Text)
      → match_normalized rs name ≡ blocked
      → covered_test rs name ≡ true
  unfolding match_normalized covered_test
  blocked_tests rs name h = ground arith

  blocked_when :
      (rs : RuleSet S) (name : Text)
      → matches_set name rs.allowed_set ≡ false
      → matches_wildcard_set name rs.wildcard_allowed_set ≡ false
      → covered_test rs name ≡ true
      → match_normalized rs name ≡ blocked
  unfolding match_normalized covered_test
  blocked_when rs name e f k = ground arith

  match_normalized-blocked :
      (rs : RuleSet S) (name : Text)
      → (match_normalized rs name ≡ blocked) ↔ (¬ Exempt rs name × Covered rs name)
  match_normalized-blocked rs name = (
    λ h. (
      λ x. let e : blocked ≡ allowed = sym h ∙ (match_normalized-allowed rs name).1 x in cc,
      (covered_test_iff rs name).0 (blocked_tests rs name h),
    ),
    λ (n, c).
        let (e, f) = not-Exempt rs name n in
        blocked_when rs name e f ((covered_test_iff rs name).1 c),
  )

module _ ⦃u : Unicode⦄ {S : Type 0} ⦃re : RegexCrate S⦄ where
  -- The answer is `allowed` exactly when the name or a parent is in the allow set or matches an
  -- allow pattern, and `blocked` exactly when that is not so and everything is blocked or the name
  -- or a parent is in the block set or matches a block pattern. The name is the query without its
  -- trailing dots, in lower case.
  pub match_domain_lem :
      (rs : RuleSet S) (domain : Text)
      → ((match_domain rs domain ≡ allowed) ↔ Exempt rs (query_name domain))
        × ((match_domain rs domain ≡ blocked)
            ↔ (¬ Exempt rs (query_name domain) × Covered rs (query_name domain)))
  unfolding match_domain
  match_domain_lem rs domain = (
    match_normalized-allowed rs (query_name domain),
    match_normalized-blocked rs (query_name domain),
  )

  pub is_blocked_iff :
      (rs : RuleSet S) (domain : Text)
      → (is_blocked rs domain ≡ true) ↔ (match_domain rs domain ≡ blocked)
  unfolding is_blocked
  is_blocked_iff rs domain = ground arith
