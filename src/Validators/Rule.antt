-- ===== src/Validators/Rule.antt =====
-- src/api/validators/rule.rs: `RuleValidator`.
use rust_dns_backend.Base.{
  ℕ, zero, suc, ◌+◌, Bool, true, false, ◌&&◌, ◌||◌, Option, none, some, List, [], ◌∷◌, ◌++◌, ◌==◌,
  if◌then◌else◌, is_nil, any, length,
}
use rust_dns_backend.Text.{
  Text, Unicode, codes, len, is_whitespace, text_eq, strip_prefix, starts_with, trim_end, trim,
}
use rust_dns_backend.Text.Split.{split_whitespace, onto_first}
use rust_dns_backend.Validators.{Verdict, validate_domain, validate_ip}

-- `trim_start_matches` with a text: as often as it stands there; the fuel is the length.
unfoldable pub trim_start_text : ℕ → Text → Text → Text
unfolding strip_prefix
trim_start_text zero p s = s
trim_start_text (suc fuel) p s = elim (strip_prefix p s) [
  | none ↦ s
  | some rest ↦ trim_start_text fuel p rest
]

-- `split("->")`: the flag tells that the next character belongs to the arrow.
unfoldable pub split_arrow : Bool → Text → List Text
split_arrow inside [] = [] ∷ []
split_arrow true (c ∷ s) = split_arrow false s
split_arrow false (c ∷ []) = (c ∷ []) ∷ []
split_arrow false (c ∷ d ∷ s) =
    let pieces = split_arrow (c == b'-' && d == b'>') (d ∷ s) in
    if c == b'-' && d == b'>' then [] ∷ pieces else onto_first c pieces

-- `find("->")`, in bytes.
unfoldable pub find_arrow : Text → Option ℕ
unfolding starts_with len
find_arrow [] = none
find_arrow (c ∷ s) =
    let rest : Option ℕ = elim (find_arrow s) [ none ↦ none | some n ↦ some (len (c ∷ []) + n) ] in
    if starts_with (codes "->") (c ∷ s) then some 0 else rest

abbrev pub arrow_or : (ℕ → ℕ) → ℕ → Option ℕ → Option ℕ
arrow_or f default none = some default
arrow_or f default (some n) = some (f n)

-- `map_err` to the field `rule`.
abbrev pub in_rule : Verdict → Verdict
in_rule none = none
in_rule (some e) = some (record e { field = codes "rule" })

-- `?`
infixl 5 ◌and_then◌
abbrev pub ◌and_then◌ : Verdict → Verdict → Verdict
none and_then v = v
(some e) and_then v = some e

abbrev rule_error : Text → Text → Text → Option ℕ → Text → Verdict
rule_error code message field column suggestion = some (record {
  code = code;
  message = message;
  field = field;
  column = column;
  suggestion = some suggestion;
})

module _ ⦃u : Unicode⦄ where
  unfoldable pub validate_words : Text → List Text → Verdict
  unfolding validate_domain validate_ip
  validate_words rule (ip ∷ domain ∷ rest) =
      validate_ip ip and_then in_rule (validate_domain domain)
  validate_words rule _ = in_rule (validate_domain rule)

  -- The domain between a prefix and the carets at the end.
  unfoldable pub domain_part : Text → Text → Text
  unfolding trim_start_text trim_end
  domain_part prefix rule = trim_end b'^' (trim_start_text (length rule) prefix rule)

  unfoldable pub validate_filter_rule : Text → Verdict
  unfolding starts_with domain_part validate_domain any is_whitespace split_whitespace
      validate_words
  validate_filter_rule rule =
      if starts_with (codes "||") rule
      then in_rule (validate_domain (domain_part (codes "||") rule))
      else if starts_with (codes "@@||") rule
      then in_rule (validate_domain (domain_part (codes "@@||") rule))
      else if any is_whitespace rule
      then validate_words rule (split_whitespace rule)
      else in_rule (validate_domain rule)

  unfoldable pub validate_rewrite_parts : Text → List Text → Verdict
  unfolding trim find_arrow len validate_domain validate_ip
  validate_rewrite_parts rule (left ∷ right ∷ []) =
      if is_nil (trim left) || is_nil (trim right)
      then rule_error (codes "E010") (codes "Domain and IP cannot be empty in rewrite rule")
          (codes "rule") (arrow_or (λ pos. pos + 2) 0 (find_arrow rule))
          (codes "Example: myapp.local -> 192.168.1.100")
      else in_rule (validate_domain (trim left)) and_then in_rule (validate_ip (trim right))
  validate_rewrite_parts rule _ =
      rule_error (codes "E009") (codes "Rewrite rule must be in format: domain -> IP")
        (codes "rule") (arrow_or (λ pos. pos) (len rule) (find_arrow rule))
        (codes "Example: myapp.local -> 192.168.1.100")

  unfoldable pub validate_rewrite_rule : Text → Verdict
  unfolding split_arrow validate_rewrite_parts
  validate_rewrite_rule rule = validate_rewrite_parts rule (split_arrow false rule)

  -- `validate_rule` on a trimmed rule.
  unfoldable pub validate_trimmed_rule : Text → Text → Verdict
  unfolding text_eq validate_filter_rule validate_rewrite_rule
  validate_trimmed_rule rule_type rule =
      if is_nil rule
      then rule_error (codes "E008") (codes "Rule cannot be empty") (codes "rule") none
          (codes "Provide a valid rule")
      else if text_eq rule_type (codes "filter")
      then validate_filter_rule rule
      else if text_eq rule_type (codes "rewrite")
      then validate_rewrite_rule rule
      else rule_error (codes "E011") (codes "Unknown rule type: " ++ rule_type) (codes "type") none
          (codes "Use 'filter' or 'rewrite' as rule type")

  unfoldable pub validate_rule : Text → Text → Verdict
  unfolding trim validate_trimmed_rule
  validate_rule rule_type rule = validate_trimmed_rule rule_type (trim rule)
