-- ===== src/Subscription.antt =====
-- src/dns/subscription.rs: the parsers of filter lists. The guard on URLs is `Subscription/Guard`, the
-- replacement of a list's rules `Subscription/Sync`.
pub mod Guard
pub mod GuardLaws
pub mod Sync
pub mod Replaced
pub mod Kinds
pub mod Listed
use rust_dns_backend.Base.{
  ℕ, zero, suc, ◌+◌, ◌*◌, ◌<◌, Bool, true, false, not, ◌&&◌, ◌||◌, Option, none, some, List, [],
  ◌∷◌, ◌++◌, ltb, leb, ◌==◌, if◌then◌else◌, is_nil, head_or, all, any, length,
}
use rust_dns_backend.Text.{
  Text, Unicode, codes, len, is_alphanumeric, strip_prefix, starts_with, ends_with, contains,
  trim_end, trim_end_by, trim,
}
use rust_dns_backend.Text.Split.{split, split_whitespace, lines}
use rust_dns_backend.Net.{is_ip}
use rust_dns_backend.Rules.Forms.{block_rule, allow_rule}

-- `str::contains` with a text.
unfoldable pub contains_text : Text → Text → Bool
unfolding starts_with
contains_text p [] = is_nil p
contains_text p (c ∷ s) = starts_with p (c ∷ s) || contains_text p s

-- `[a-zA-Z0-9]` and `[a-zA-Z0-9_.-]`
abbrev between : ℕ → ℕ → ℕ → Bool
between lo hi c = leb lo c && leb c hi

unfoldable pub is_ascii_alphanumeric : ℕ → Bool
is_ascii_alphanumeric c = between b'a' b'z' c || between b'A' b'Z' c || between b'0' b'9' c

unfoldable pub is_rule_char : ℕ → Bool
unfolding is_ascii_alphanumeric
is_rule_char c = is_ascii_alphanumeric c || c == b'_' || c == b'.' || c == b'-'

-- The longest run of characters that pass, and the rest.
unfoldable pub span : (ℕ → Bool) → Text → Text × Text
span p [] = ([], [])
span p (c ∷ s) = let more = span p s in if p c then (c ∷ more.0, more.1) else ([], c ∷ s)

-- Two characters or more, the first and the last of them letters or digits.
unfoldable pub ends_alphanumeric : Text → Bool
unfolding is_ascii_alphanumeric
ends_alphanumeric [] = false
ends_alphanumeric (c ∷ []) = is_ascii_alphanumeric c
ends_alphanumeric (c ∷ d ∷ s) = ends_alphanumeric (d ∷ s)

unfoldable pub is_rule_name : Text → Bool
unfolding is_ascii_alphanumeric ends_alphanumeric
is_rule_name [] = false
is_rule_name (c ∷ s) = is_ascii_alphanumeric c && ends_alphanumeric s

-- `(?:[\^$].*)?$` on a single line.
abbrev pub is_option_part : Text → Bool
is_option_part [] = true
is_option_part (c ∷ s) = c == b'^' || c == b'$'

-- The group of `([a-zA-Z0-9][a-zA-Z0-9_.-]*[a-zA-Z0-9])(?:[\^$].*)?$`: none of the characters that end
-- the name is one of its own, so that it is the whole run.
unfoldable pub captured_name : Text → Option Text
unfolding span is_rule_char is_rule_name
captured_name s =
    let (name, rest) = span is_rule_char s in
    if is_rule_name name && is_option_part rest then some name else none

unfoldable pub capture_after : Text → Text → Option Text
unfolding strip_prefix captured_name
capture_after prefix line = elim (strip_prefix prefix line) [
  | none ↦ none
  | some rest ↦ captured_name rest
]

-- `ADGUARD_EXCEPTION` and `ADGUARD_DOMAIN_RULE`
unfoldable pub captures_exception : Text → Option Text
unfolding capture_after
captures_exception line = capture_after (codes "@@||") line

unfoldable pub captures_domain_rule : Text → Option Text
unfolding capture_after
captures_domain_rule line = capture_after (codes "||") line

-- What a line adds to the two lists.
pub data ListRule : Type 0 where
  block_line : Text → ListRule
  allow_line : Text → ListRule
  no_rule : ListRule

-- `.domain.com^`
unfoldable pub dotted_rule : Text → ListRule
unfolding split contains trim_end block_rule
dotted_rule inner =
    let before = head_or (split b'^' inner) inner in
    let domain_str = trim_end b'.' (head_or (split b'$' before) inner) in
    if contains b'.' domain_str && not (is_nil domain_str)
    then block_line (block_rule domain_str)
    else no_rule

-- A plain domain, the last form that is tried.
unfoldable pub plain_rule : Text → ListRule
unfolding any contains trim_end_by starts_with ends_with block_rule
plain_rule line =
    let stripped = trim_end_by (λ c. c == b'^' || c == b'$') line in
    if any (λ c. c == b'/' || c == b':' || c == b'*' || c == b'|') line
    then no_rule
    else if not (contains b'^' stripped)
        && contains b'.' stripped
        && not (starts_with (codes ".") stripped)
        && not (ends_with (codes ".") stripped)
    then block_line (block_rule stripped)
    else no_rule

unfoldable pub wildcard_rule : Text → ListRule
unfolding starts_with contains plain_rule
wildcard_rule line =
    if starts_with (codes "@@||") line && contains b'*' line
    then allow_line line
    else if starts_with (codes "||") line && contains b'*' line
    then block_line line
    else plain_rule line

unfoldable pub captured_rule : Text → ListRule
unfolding captures_exception captures_domain_rule allow_rule block_rule wildcard_rule
captured_rule line = elim (captures_exception line) [
  | some domain ↦ allow_line (allow_rule domain)
  | none ↦ elim (captures_domain_rule line) [
    | some domain ↦ block_line (block_rule domain)
    | none ↦ wildcard_rule line
  ]
]

-- Blank lines, comments, cosmetic rules, and regular expressions.
unfoldable pub is_ignored : Text → Bool
unfolding starts_with ends_with contains_text
is_ignored line =
    (is_nil line || starts_with (codes "!") line || starts_with (codes "#") line)
    || (contains_text (codes "##") line
        || contains_text (codes "#@#") line
        || contains_text (codes "#%#") line)
    || starts_with (codes "/") line && ends_with (codes "/") line

-- One round of the loop, on a trimmed line; `len() > 1` holds where something follows the dot.
unfoldable pub list_rule : Text → ListRule
unfolding is_ignored dotted_rule captured_rule
list_rule [] = no_rule
list_rule (c ∷ []) = if is_ignored (c ∷ []) then no_rule else captured_rule (c ∷ [])
list_rule (c ∷ d ∷ s) =
    if is_ignored (c ∷ d ∷ s)
    then no_rule
    else if c == b'.'
    then dotted_rule (d ∷ s)
    else captured_rule (c ∷ d ∷ s)

abbrev pub push_rule : ListRule → List Text × List Text → List Text × List Text
push_rule (block_line r) rules = (r ∷ rules.0, rules.1)
push_rule (allow_line r) rules = (rules.0, r ∷ rules.1)
push_rule no_rule rules = rules

module _ ⦃u : Unicode⦄ where
  unfoldable pub list_rules : List Text → List Text × List Text
  unfolding list_rule trim
  list_rules [] = ([], [])
  list_rules (line ∷ rest) = push_rule (list_rule (trim line)) (list_rules rest)

  unfoldable pub parse_adguard_rules : Text → List Text × List Text
  unfolding list_rules lines
  parse_adguard_rules content = list_rules (lines content)

  unfoldable pub is_hosts_name : Text → Bool
  unfolding contains starts_with ends_with all is_alphanumeric
  is_hosts_name domain =
      contains b'.' domain
      && not (starts_with (codes ".") domain)
      && not (ends_with (codes ".") domain)
      && all (λ c. is_alphanumeric c || c == b'.' || c == b'-' || c == b'_') domain

  unfoldable pub hosts_rule : List Text → Option Text
  unfolding is_hosts_name block_rule
  hosts_rule (ip ∷ domain ∷ rest) = if is_hosts_name domain then some (block_rule domain) else none
  hosts_rule _ = none

  -- Blank lines and comments of a hosts file.
  unfoldable pub is_hosts_comment : Text → Bool
  unfolding starts_with
  is_hosts_comment line = is_nil line || starts_with (codes "#") line

  unfoldable pub hosts_rules : List Text → List Text
  unfolding is_hosts_comment hosts_rule split_whitespace trim
  hosts_rules [] = []
  hosts_rules (raw ∷ rest) =
      let line = trim raw in
      let more = hosts_rules rest in
      if is_hosts_comment line
      then more
      else elim (hosts_rule (split_whitespace line)) [ none ↦ more | some r ↦ r ∷ more ]

  unfoldable pub parse_hosts_rules : Text → List Text
  unfolding hosts_rules lines
  parse_hosts_rules content = hosts_rules (lines content)

  unfoldable pub has_address : List Text → Bool
  unfolding is_ip
  has_address (first ∷ second ∷ rest) = is_ip first
  has_address _ = false

  -- `hosts_lines` and `total_lines` of the lines that are looked at.
  unfoldable pub count_hosts_lines : List Text → ℕ × ℕ
  unfolding is_hosts_comment has_address split_whitespace trim
  count_hosts_lines [] = (0, 0)
  count_hosts_lines (raw ∷ rest) =
      let line = trim raw in
      let (hosts, total) = count_hosts_lines rest in
      if is_hosts_comment line
      then (hosts, total)
      else (if has_address (split_whitespace line) then suc hosts else hosts, suc total)

unfoldable pub take : ℕ → List Text → List Text
take zero xs = []
take (suc n) [] = []
take (suc n) (x ∷ xs) = x ∷ take n xs

module _ ⦃u : Unicode⦄ where
  -- The quotient of two counts up to a hundred is above 0.5 exactly if the first is above half the
  -- second, also after rounding.
  unfoldable pub is_hosts_format : Text → Bool
  unfolding count_hosts_lines take lines
  is_hosts_format content =
      let (hosts, total) = count_hosts_lines (take 100 (lines content)) in
      ltb 0 total && ltb total (2 * hosts)

  -- The rules of a list, and what `sync_filter_list` stores.
  unfoldable pub parse_list : Text → List Text × List Text
  unfolding is_hosts_format parse_hosts_rules parse_adguard_rules
  parse_list content =
      if is_hosts_format content
      then (parse_hosts_rules content, [])
      else parse_adguard_rules content
