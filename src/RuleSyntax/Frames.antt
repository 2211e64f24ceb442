-- ===== src/RuleSyntax/Frames.antt =====
-- src/dns/rules.rs: a valid domain survives the stripping of options and of trailing marks, since
-- none of the marks can stand in it.
use rust_dns_backend.Base.{
  ℕ, ◌≡◌, refl, inl, inr, Bool, true, false, ◌||◌, some, List, [], ◌∷◌, ◌++◌, ◌==◌, arith,
  Bool-cases, ◌≢◌, all, any,
}
use rust_dns_backend.Text.{Text, Unicode, contains, trim_end, is_alphanumeric}
use rust_dns_backend.Text.Split.{onto_first, split_by, split}
use rust_dns_backend.Text.SplitLaws.{
  split_by-append, split_by_absent, trim_end_by_cases, trim_end_absent,
}
use rust_dns_backend.RuleSyntax.{
  is_valid_label, is_valid_domain, normalize_domain, checked_domain, strip_options, trim_rule_end,
  parse_adguard_domain,
}

module _ ⦃u : Unicode⦄ where
  -- What a valid domain is made of.
  unfoldable pub is_domain_char : ℕ → Bool
  unfolding is_alphanumeric
  is_domain_char c = is_alphanumeric c || c == b'-' || c == b'.'

  label_chars : Text → Bool
  label_chars label = all (λ c. is_alphanumeric c || c == b'-') label

  label_chars-valid : (label : Text) → is_valid_label label ≡ true → label_chars label ≡ true
  unfolding is_valid_label label_chars
  label_chars-valid label h = ground arith

  all-label_chars :
      (labels : List Text) → all is_valid_label labels ≡ true → all label_chars labels ≡ true
  unfolding all
  all-label_chars [] h = refl
  all-label_chars (l ∷ ls) h = ground (arith, label_chars-valid l, all-label_chars ls)

  onto_first_chars :
      (x : ℕ) (ps : List Text)
      → all label_chars (onto_first x ps) ≡ true
      → ((is_alphanumeric x || x == b'-') ≡ true) × (all label_chars ps ≡ true)
  unfolding label_chars all
  onto_first_chars x [] h = (ground arith, refl)
  onto_first_chars x (p ∷ ps) h = (ground arith, ground arith)

  chars_of_labels : (s : Text) → all label_chars (split b'.' s) ≡ true → all is_domain_char s ≡ true
  unfolding split split_by is_domain_char all
  chars_of_labels [] h = refl
  chars_of_labels (x ∷ s) h = elim (Bool-cases (x == b'.')) [
    | inl e ↦ ground (arith, chars_of_labels s)
    | inr e ↦
        let (k, m) = onto_first_chars x (split b'.' s) (rw e at h) in
        ground (arith, chars_of_labels s m)
  ]

  valid_labels : (d : Text) → is_valid_domain d ≡ true → all is_valid_label (split b'.' d) ≡ true
  unfolding is_valid_domain
  valid_labels d h = ground arith

  pub valid_chars : (d : Text) → is_valid_domain d ≡ true → all is_domain_char d ≡ true
  valid_chars d h = chars_of_labels d (all-label_chars (split b'.' d) (valid_labels d h))

  -- A character that no domain has does not stand in a valid one.
  absent_char :
      (c : ℕ) (s : Text)
      → is_domain_char c ≡ false
      → all is_domain_char s ≡ true
      → contains c s ≡ false
  unfolding contains any all
  absent_char c [] n h = refl
  absent_char c (x ∷ s) n h = elim (Bool-cases (x == c)) [
    | inl e ↦
        let x_is_c : x ≡ c = ground arith in
        let bad : is_domain_char x ≡ false = rw x_is_c n in absurd (ground arith)
    | inr e ↦
        let rest : all is_domain_char s ≡ true = ground arith in rw (e, absent_char c s n rest)
  ]

  pub valid_absent :
      (c : ℕ) (d : Text)
      → is_domain_char c ≡ false
      → is_valid_domain d ≡ true
      → contains c d ≡ false
  valid_absent c d n h = absent_char c d n (valid_chars d h)

  all-append_last :
      (p : Text → Bool) (xs : List Text) (y : Text) → all p (xs ++ y ∷ []) ≡ true → p y ≡ true
  unfolding all
  all-append_last p [] y h = ground arith
  all-append_last p (x ∷ xs) y h = ground (arith, all-append_last p xs y)

  empty_label : is_valid_label [] ≢ true
  unfolding is_valid_label
  empty_label k = cc

  -- A valid domain does not end in a dot: the label behind it would be empty.
  valid_end : (d : Text) → is_valid_domain d ≡ true → trim_end b'.' d ≡ d
  unfolding trim_end
  valid_end d h = elim (trim_end_by_cases (λ x. x == b'.') d) [
    | inl e ↦ e
    | inr (e, c, q, k) ↦
        let cut : split b'.' d ≡ split b'.' e ++ [] ∷ [] =
          rw q (unfold split split_by in split_by-append (λ x. x == b'.') e c [] k) in
        let last : is_valid_label [] ≡ true =
          all-append_last is_valid_label (split b'.' e) [] (rw cut at (valid_labels d h)) in
        absurd (empty_label last)
  ]

  pub trim_rule_end-valid : (d : Text) → is_valid_domain d ≡ true → trim_rule_end d ≡ d
  unfolding trim_rule_end is_domain_char
  trim_rule_end-valid d h =
      rw
        (
          trim_end_absent b'|' d (valid_absent b'|' d refl h),
          trim_end_absent b'/' d (valid_absent b'/' d refl h),
        )
        (valid_end d h)

  -- The text in front of the first `c` is all of the options' prefix.
  pub strip_options-caret :
      (d : Text) → is_valid_domain d ≡ true → strip_options (d ++ b'^' ∷ []) ≡ d
  unfolding strip_options split is_domain_char contains
  strip_options-caret d h =
      let no_caret = split_by_absent (λ x. x == b'^') d (valid_absent b'^' d refl h) in
      let no_dollar = split_by_absent (λ x. x == b'$') d (valid_absent b'$' d refl h) in
      rw (split_by-append (λ x. x == b'^') d b'^' [] refl, no_caret, no_dollar)

  pub checked_domain-valid :
      (d : Text) → is_valid_domain d ≡ true → normalize_domain d ≡ d → checked_domain d ≡ some d
  unfolding checked_domain
  checked_domain-valid d h n = rw (n, h)

  -- `parse_adguard_domain` reads back the domain of the canonical rule.
  pub parse_adguard_domain-rule :
      (d : Text)
      → is_valid_domain d ≡ true
      → normalize_domain d ≡ d
      → parse_adguard_domain (b'|' ∷ b'|' ∷ d ++ b'^' ∷ []) ≡ some d
  unfolding parse_adguard_domain
  parse_adguard_domain-rule d h n =
      rw (strip_options-caret d h, trim_rule_end-valid d h) (checked_domain-valid d h n)
