-- ===== src/Rules.antt =====
-- src/dns/rules.rs, `RuleSet`: the sets of domains and of wildcard patterns, built from rule lines
-- and matched against queried names. The crate `regex` is the instance `RegexCrate`.
pub mod Match
pub mod Decide
pub mod Lines
pub mod EndToEnd
pub mod Forms
pub mod Bare
pub mod Growth
pub mod Add
use rust_dns_backend.Base.{
  ℕ, suc, ◌+◌, Bool, true, false, not, ◌&&◌, ◌||◌, Option, none, some, List, [], ◌∷◌, ◌++◌, ◌==◌,
  if◌then◌else◌, is_nil, any, length,
}
use rust_dns_backend.Text.{
  Text, Unicode, codes, to_lowercase, text_eq, strip_prefix, starts_with, ends_with, trim_end, trim,
  after,
}
use rust_dns_backend.Text.Split.{lines}
use rust_dns_backend.RuleSyntax.{
  normalize_domain, is_valid_domain, checked_domain, strip_options, parse_adguard_domain,
  parse_adguard_wildcard_pattern, parse_hosts_line,
}

pub data MatchResult : Type 0 where
  allowed blocked no_match : MatchResult

-- `RegexSet` of the crate `regex`: `compile` is `RegexSet::new(..).ok()`.
pub record RegexCrate (S : Type 0) : Type 0 where
  pub compile : List Text → Option S
  pub set_is_empty : S → Bool
  pub is_match : S → Text → Bool

-- An `AHashSet<Box<str>>` is the list of its members.
pub record RuleSet (S : Type 0) : Type 0 where
  pub blocked_set : List Text
  pub allowed_set : List Text
  pub wildcard_blocked_patterns : List Text
  pub wildcard_allowed_patterns : List Text
  pub wildcard_blocked_set : Option S
  pub wildcard_allowed_set : Option S
  pub block_all : Bool

unfoldable pub set_contains : Text → List Text → Bool
unfolding any text_eq
set_contains d ds = any (text_eq d) ds

unfoldable pub set_insert : Text → List Text → List Text
unfolding set_contains
set_insert d ds = if set_contains d ds then ds else d ∷ ds

unfoldable pub new_rules : {S : Type 0} → RuleSet S
new_rules = record {
  blocked_set = [];
  allowed_set = [];
  wildcard_blocked_patterns = [];
  wildcard_allowed_patterns = [];
  wildcard_blocked_set = none;
  wildcard_allowed_set = none;
  block_all = false;
}

-- The loop of `matches_set` and `matches_wildcard_set` from a name up through its parents. A round
-- shortens the name, so that its length bounds the rounds.
unfoldable pub walk_parents : (Text → Bool) → ℕ → Text → Bool
unfolding after
walk_parents hit ℕ.zero current = false
walk_parents hit (suc fuel) current =
    if hit current
    then true
    else elim (after b'.' current) [ none ↦ false | some parent ↦ walk_parents hit fuel parent ]

unfoldable pub matches_set : Text → List Text → Bool
unfolding walk_parents set_contains
matches_set domain set = walk_parents (λ d. set_contains d set) (suc (length domain)) domain

module _ {S : Type 0} where
  unfoldable pub block_domain : RuleSet S → Text → RuleSet S
  unfolding set_insert
  block_domain rs domain = record rs { blocked_set = set_insert domain rs.blocked_set }

  unfoldable pub allow_domain : RuleSet S → Text → RuleSet S
  unfolding set_insert
  allow_domain rs domain = record rs { allowed_set = set_insert domain rs.allowed_set }

  -- A pushed pattern makes the compiled set stale.
  unfoldable pub block_pattern : RuleSet S → Text → RuleSet S
  block_pattern rs pattern = record rs {
    wildcard_blocked_patterns = rs.wildcard_blocked_patterns ++ pattern ∷ [];
    wildcard_blocked_set = none;
  }

  unfoldable pub allow_pattern : RuleSet S → Text → RuleSet S
  allow_pattern rs pattern = record rs {
    wildcard_allowed_patterns = rs.wildcard_allowed_patterns ++ pattern ∷ [];
    wildcard_allowed_set = none;
  }

  unfoldable pub blocked_count : RuleSet S → ℕ
  blocked_count rs = length rs.blocked_set + length rs.wildcard_blocked_patterns

  unfoldable pub allowed_count : RuleSet S → ℕ
  allowed_count rs = length rs.allowed_set + length rs.wildcard_allowed_patterns

-- Blank lines, comments, and rules between slashes.
unfoldable pub is_skipped : Text → Bool
unfolding starts_with ends_with
is_skipped line =
    (is_nil line || starts_with (codes "#") line || starts_with (codes "!") line)
    || starts_with (codes "/") line && ends_with (codes "/") line

module _ ⦃u : Unicode⦄ {S : Type 0} where
  -- What follows `@@`.
  unfoldable pub add_exception : RuleSet S → Text → RuleSet S × Bool
  unfolding parse_adguard_domain parse_adguard_wildcard_pattern allow_domain allow_pattern
  add_exception rs rest = elim (parse_adguard_domain rest) [
    | some domain ↦ (allow_domain rs domain, true)
    | none ↦ elim (parse_adguard_wildcard_pattern rest) [
      | some pattern ↦ (allow_pattern rs pattern, true)
      | none ↦ (rs, false)
    ]
  ]

  -- What follows a leading dot.
  unfoldable pub add_dotted : RuleSet S → Text → RuleSet S × Bool
  unfolding strip_options trim_end checked_domain block_domain
  add_dotted rs inner = elim (checked_domain (trim_end b'.' (strip_options inner))) [
    | some domain ↦ (block_domain rs domain, true)
    | none ↦ (rs, false)
  ]

  -- A plain domain, the last form that is tried.
  unfoldable pub add_plain : RuleSet S → Text → RuleSet S × Bool
  unfolding checked_domain block_domain
  add_plain rs line = elim (checked_domain line) [
    | some domain ↦ (block_domain rs domain, true)
    | none ↦ (rs, false)
  ]

  -- `*.example.com`, and the plain domain behind it.
  unfoldable pub add_star : RuleSet S → Text → RuleSet S × Bool
  unfolding strip_prefix normalize_domain block_domain add_plain
  add_star rs line = elim (strip_prefix (codes "*.") line) [
    | none ↦ add_plain rs line
    | some rest ↦
        if is_nil (normalize_domain rest)
        then add_plain rs line
        else (block_domain rs (normalize_domain rest), true)
  ]

  -- The forms that are tried when no AdGuard form fits.
  unfoldable pub add_other : RuleSet S → Text → RuleSet S × Bool
  unfolding strip_prefix parse_hosts_line block_domain add_dotted add_star
  add_other rs line = elim (strip_prefix (codes ".") line) [
    | some inner ↦ add_dotted rs inner
    | none ↦ elim (parse_hosts_line line) [
      | some domain ↦ (block_domain rs domain, true)
      | none ↦ add_star rs line
    ]
  ]

  unfoldable pub add_block : RuleSet S → Text → RuleSet S × Bool
  unfolding parse_adguard_domain parse_adguard_wildcard_pattern block_domain block_pattern add_other
  add_block rs line = elim (parse_adguard_domain line) [
    | some domain ↦ (block_domain rs domain, true)
    | none ↦ elim (parse_adguard_wildcard_pattern line) [
      | some pattern ↦ (block_pattern rs pattern, true)
      | none ↦ add_other rs line
    ]
  ]

  -- `add_rule` on a trimmed line.
  unfoldable pub add_trimmed : RuleSet S → Text → RuleSet S × Bool
  unfolding is_skipped text_eq strip_prefix add_exception add_block
  add_trimmed rs line =
      if is_skipped line
      then (rs, false)
      else if text_eq line (codes "||*^") || text_eq line (codes "||*")
      then (record rs { block_all = true }, true)
      else elim (strip_prefix (codes "@@") line) [
        | some rest ↦ add_exception rs rest
        | none ↦ add_block rs line
      ]

  unfoldable pub add_rule : RuleSet S → Text → RuleSet S × Bool
  unfolding add_trimmed trim
  add_rule rs line = add_trimmed rs (trim line)

  -- The loops that feed lines to `add_rule`: the set, and how many lines were rules.
  unfoldable pub add_rules : RuleSet S → List Text → RuleSet S × ℕ
  unfolding add_rule
  add_rules rs [] = (rs, 0)
  add_rules rs (line ∷ lines) =
      let (rs', added) = add_rule rs line in
      let (rs'', total) = add_rules rs' lines in (rs'', if added then suc total else total)

  unfoldable pub add_rules_from_str : RuleSet S → Text → RuleSet S × ℕ
  unfolding add_rules lines
  add_rules_from_str rs content = add_rules rs (lines content)

module _ {S : Type 0} ⦃re : RegexCrate S⦄ where
  unfoldable pub compile_patterns : List Text → Option S
  compile_patterns patterns = if is_nil patterns then none else re.compile patterns

  unfoldable pub build : RuleSet S → RuleSet S
  unfolding compile_patterns
  build rs = record rs {
    wildcard_blocked_set = compile_patterns rs.wildcard_blocked_patterns;
    wildcard_allowed_set = compile_patterns rs.wildcard_allowed_patterns;
  }

  unfoldable pub matches_wildcard_set : Text → Option S → Bool
  unfolding walk_parents
  matches_wildcard_set domain none = false
  matches_wildcard_set domain (some set) =
      if re.set_is_empty set
      then false
      else walk_parents (re.is_match set) (suc (length domain)) domain

  -- `match_domain` on the name with its trailing dots cut and lowercased.
  unfoldable pub match_normalized : RuleSet S → Text → MatchResult
  unfolding matches_set matches_wildcard_set
  match_normalized rs domain =
      if matches_set domain rs.allowed_set
      then allowed
      else if matches_wildcard_set domain rs.wildcard_allowed_set
      then allowed
      else if rs.block_all
      then blocked
      else if matches_set domain rs.blocked_set
      then blocked
      else if matches_wildcard_set domain rs.wildcard_blocked_set
      then blocked
      else no_match

module _ ⦃u : Unicode⦄ where
  unfoldable pub query_name : Text → Text
  unfolding trim_end to_lowercase
  query_name domain = to_lowercase (trim_end b'.' domain)

module _ ⦃u : Unicode⦄ {S : Type 0} ⦃re : RegexCrate S⦄ where
  unfoldable pub match_domain : RuleSet S → Text → MatchResult
  unfolding match_normalized query_name
  match_domain rs domain = match_normalized rs (query_name domain)

  unfoldable pub is_blocked : RuleSet S → Text → Bool
  unfolding match_domain
  is_blocked rs domain = elim (match_domain rs domain) [ blocked ↦ true | _ ↦ false ]
