-- ===== src/Validators.antt =====
-- src/api/validators: the checks of domains, addresses and rules before they are stored. `none` is
-- `Ok(())`.
pub mod Rule
pub mod Agree
pub mod Accepted
use rust_dns_backend.Base.{
  ℕ, zero, suc, ◌+◌, ◌-◌, Bool, true, false, not, ◌&&◌, ◌||◌, Option, none, some, List, [], ◌∷◌,
  ◌++◌, ltb, ◌==◌, if◌then◌else◌, is_nil, all, length,
}
use rust_dns_backend.Text.{
  Text, Unicode, codes, len, is_alphanumeric, text_eq, strip_prefix, starts_with, ends_with,
  trim_end, trim, decimal,
}
use rust_dns_backend.Text.Split.{split}
use rust_dns_backend.Net.{parse_ipv4, parse_ipv6}

-- `line` is `None` in every error.
pub record ValidationError : Type 0 where
  pub code : Text
  pub message : Text
  pub field : Text
  pub column : Option ℕ
  pub suggestion : Option Text

abbrev pub Verdict : Type 0
Verdict = Option ValidationError

abbrev domain_error : Text → Text → Option ℕ → Text → Verdict
domain_error code message column suggestion = some (record {
  code = code;
  message = message;
  field = codes "domain";
  column = column;
  suggestion = some suggestion;
})

module _ ⦃u : Unicode⦄ where
  unfoldable pub is_valid_label_char : ℕ → Bool
  unfolding is_alphanumeric
  is_valid_label_char c = is_alphanumeric c || c == b'-'

  -- One round of the loop over the labels, for the label at the place `i` of `domain`.
  unfoldable pub check_label : Text → ℕ → Text → Verdict
  unfolding len text_eq all is_valid_label_char starts_with ends_with
  check_label domain i label =
      if is_nil label
      then domain_error (codes "E003") (codes "Domain contains empty label") (some (len domain - i))
          (codes "Ensure domain has no consecutive dots")
      else if ltb 63 (len label)
      then domain_error (codes "E003")
          (codes "Label '" ++ (label ++ codes "' exceeds 63 characters")) none
          (codes "Use shorter labels in the domain")
      else if text_eq label (codes "*")
      then none
      else if not (all is_valid_label_char label)
      then domain_error (codes "E004")
          (codes "Label '" ++ (label ++ codes "' contains invalid characters")) none
          (codes "Labels can only contain letters, digits, and hyphens")
      else if starts_with (codes "-") label || ends_with (codes "-") label
      then domain_error (codes "E005")
          (codes "Label '" ++ (label ++ codes "' cannot start or end with hyphen")) none
          (codes "Remove leading/trailing hyphens")
      else none

  unfoldable pub check_labels : Text → ℕ → List Text → Verdict
  unfolding check_label
  check_labels domain i [] = none
  check_labels domain i (label ∷ labels) =
      let rest = check_labels domain (i + 1) labels in
      elim (check_label domain i label) [ some e ↦ some e | none ↦ rest ]

  unfoldable pub count_labels : List Text → Verdict
  count_labels labels =
      if ltb (length labels) 2
      then domain_error (codes "E004")
          (codes "Domain must have at least 2 labels (e.g., example.com)") none
          (codes "Use a fully qualified domain name")
      else none

  unfoldable pub validate_labels : Text → List Text → Verdict
  unfolding check_labels count_labels
  validate_labels domain labels = elim (check_labels domain 0 labels) [
    | some e ↦ some e
    | none ↦ count_labels labels
  ]

  -- Behind the star, or all of the domain.
  unfoldable pub validate_name : Text → Verdict
  unfolding strip_prefix split validate_labels
  validate_name domain = elim (strip_prefix (codes "*.") domain) [
    | none ↦ validate_labels domain (split b'.' domain)
    | some rest ↦
        if is_nil rest
        then domain_error (codes "E003") (codes "Wildcard domain missing target domain") (some 1)
            (codes "Use *.example.com format")
        else validate_labels domain (codes "*" ∷ split b'.' rest)
  ]

  unfoldable pub validate_trimmed : Text → Verdict
  unfolding len trim_end validate_name decimal
  validate_trimmed s =
      if is_nil s
      then domain_error (codes "E001") (codes "Domain cannot be empty") none
          (codes "Provide a valid domain like example.com")
      else if ltb 253 (len s)
      then domain_error (codes "E002")
          (codes "Domain exceeds 253 characters (got " ++ (decimal (len s) ++ codes ")")) none
          (codes "Use a shorter domain name")
      else validate_name (trim_end b'.' s)

  -- `DomainValidator::validate`
  unfoldable pub validate_domain : Text → Verdict
  unfolding trim validate_trimmed
  validate_domain input = validate_trimmed (trim input)

  abbrev ip_error : Text → Text → Text → Verdict
  ip_error code message suggestion = some (record {
    code = code;
    message = message;
    field = codes "ip";
    column = none;
    suggestion = some suggestion;
  })

  unfoldable pub is_parsed : {A : Type 0} → Option A → Bool
  is_parsed none = false
  is_parsed (some a) = true

  -- `IpValidator::validate`
  unfoldable pub validate_ip : Text → Verdict
  unfolding trim parse_ipv4 parse_ipv6 is_parsed
  validate_ip input =
      let s = trim input in
      if is_nil s
      then ip_error (codes "E006") (codes "IP address cannot be empty")
          (codes "Provide a valid IPv4 or IPv6 address")
      else if is_parsed (parse_ipv4 s)
      then none
      else if is_parsed (parse_ipv6 s)
      then none
      else ip_error (codes "E007") (codes "Invalid IP address format: " ++ s)
          (codes "Use IPv4 (e.g., 192.168.1.1) or IPv6 (e.g., 2001:db8::1)")
