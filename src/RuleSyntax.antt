-- ===== src/RuleSyntax.antt =====
-- src/dns/rules.rs, the free functions: domain names as the rule parser normalises and checks
-- them, the AdGuard and hosts forms, and wildcards as regular expressions.
pub mod Labels
pub mod Frames
pub mod Wildcard
use rust_dns_backend.Base.{
  ℕ, Bool, true, false, not, ◌&&◌, ◌||◌, Option, none, some, List, [], ◌∷◌, ◌++◌, ltb, leb, ◌==◌,
  if◌then◌else◌, is_nil, any, all, head_or,
}
use rust_dns_backend.Text.{
  Text, Unicode, codes, len, is_alphanumeric, to_lowercase, text_eq, strip_prefix, starts_with,
  ends_with, contains, trim_end, trim,
}
use rust_dns_backend.Text.Split.{split, split_whitespace}
use rust_dns_backend.Net.{is_ip}

abbrev pub localhost : Text
localhost = codes "localhost"

module _ ⦃u : Unicode⦄ where
  unfoldable pub normalize_domain : Text → Text
  unfolding trim trim_end to_lowercase
  normalize_domain s = to_lowercase (trim_end b'.' (trim s))

  -- The closure over one label.
  unfoldable pub is_valid_label : Text → Bool
  unfolding all len is_alphanumeric starts_with ends_with
  is_valid_label label =
      not (is_nil label)
      && leb (len label) 63
      && all (λ c. is_alphanumeric c || c == b'-') label
      && not (starts_with (codes "-") label)
      && not (ends_with (codes "-") label)

  unfoldable pub is_valid_domain : Text → Bool
  unfolding is_valid_label split contains text_eq
  is_valid_domain s =
      if is_nil s || ltb 253 (len s)
      then false
      else if not (contains b'.' s) && not (text_eq s localhost)
      then false
      else all is_valid_label (split b'.' s)

-- `rest.split('^').next()` and then `split('$').next()`.
unfoldable pub strip_options : Text → Text
unfolding split
strip_options rest =
    let after_caret = head_or (split b'^' rest) rest in head_or (split b'$' after_caret) after_caret

unfoldable pub trim_rule_end : Text → Text
unfolding trim_end
trim_rule_end s = trim_end b'.' (trim_end b'/' (trim_end b'|' s))

-- The two prefixes that `parse_adguard_domain` strips.
unfoldable pub strip_bars : Text → Option Text
unfolding strip_prefix
strip_bars rule = elim (strip_prefix (codes "||") rule) [
  | some s ↦ some s
  | none ↦ strip_prefix (codes "|") rule
]

module _ ⦃u : Unicode⦄ where
  -- A domain that passes the check, normalised.
  unfoldable pub checked_domain : Text → Option Text
  unfolding normalize_domain is_valid_domain
  checked_domain s =
      let domain = normalize_domain s in if is_valid_domain domain then some domain else none

  unfoldable pub parse_adguard_domain : Text → Option Text
  unfolding strip_bars strip_options trim_rule_end checked_domain
  parse_adguard_domain rule = elim (strip_bars rule) [
    | none ↦ none
    | some rest ↦ checked_domain (trim_rule_end (strip_options rest))
  ]

  -- What one character of the pattern becomes.
  unfoldable pub wildcard_char : ℕ → Text
  unfolding is_alphanumeric
  wildcard_char ch =
      if ch == b'*'
      then codes "[^.]+"
      else if ch == b'.'
      then codes "\\."
      else if is_alphanumeric ch || ch == b'-' || ch == b'_'
      then ch ∷ []
      else b'\\' ∷ ch ∷ []

  -- The loop over the pattern.
  unfoldable pub wildcard_body : Text → Text
  unfolding wildcard_char
  wildcard_body [] = []
  wildcard_body (ch ∷ pattern) = wildcard_char ch ++ wildcard_body pattern

  unfoldable pub wildcard_to_regex : Text → Text
  unfolding wildcard_body
  wildcard_to_regex pattern = codes "(?i)^" ++ (wildcard_body pattern ++ codes "$")

  -- The text between the prefix and the options of a wildcard rule.
  unfoldable pub wildcard_domain : Text → Text
  unfolding strip_options trim_rule_end to_lowercase
  wildcard_domain rest = to_lowercase (trim_rule_end (strip_options rest))

  unfoldable pub parse_adguard_wildcard_pattern : Text → Option Text
  unfolding strip_prefix wildcard_domain contains wildcard_to_regex
  parse_adguard_wildcard_pattern rule = elim (strip_prefix (codes "||") rule) [
    | none ↦ none
    | some rest ↦
        if not (contains b'*' (wildcard_domain rest))
        then none
        else if not (contains b'.' (wildcard_domain rest))
        then none
        else some (wildcard_to_regex (wildcard_domain rest))
  ]

  -- The second word of a hosts line, once the first is an address.
  unfoldable pub hosts_domain : Text → Option Text
  unfolding text_eq ends_with checked_domain
  hosts_domain domain_part =
      if text_eq domain_part localhost || ends_with (codes ".local") domain_part
      then none
      else checked_domain domain_part

  unfoldable pub hosts_words : List Text → Option Text
  unfolding is_ip hosts_domain
  hosts_words [] = none
  hosts_words (ip ∷ []) = none
  hosts_words (ip ∷ domain_part ∷ rest) = if is_ip ip then hosts_domain domain_part else none

  unfoldable pub parse_hosts_line : Text → Option Text
  unfolding split_whitespace hosts_words
  parse_hosts_line line = hosts_words (split_whitespace line)
