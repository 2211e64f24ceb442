-- ===== src/Validators/Agree.antt =====
-- src/api/validators/domain.rs against src/dns/rules.rs: two checks of the same domains.
use rust_dns_backend.Base.{
  ℕ, ◌+◌, ◌≡◌, ◌≢◌, ◌↔◌, refl, sym, inl, inr, Bool, true, false, not, ◌&&◌, none, some, List, [],
  ◌∷◌, ltb, ◌==◌, any, all, length, arith, Bool-cases,
}
use rust_dns_backend.Text.{Text, Unicode, codes, text_eq, strip_prefix, trim_end, trim, contains}
use rust_dns_backend.Text.Laws.{text_eq→≡}
use rust_dns_backend.Text.Split.{split, split_by}
use rust_dns_backend.Text.SplitLaws.{split_by-cons}
use rust_dns_backend.RuleSyntax.{is_valid_label, is_valid_domain, localhost}
use rust_dns_backend.Validators.{
  Verdict, is_valid_label_char, check_label, check_labels, count_labels, validate_labels,
  validate_name, validate_trimmed, validate_domain,
}

abbrev passes : Verdict → Bool
passes none = true
passes (some e) = false

module _ ⦃u : Unicode⦄ where
  -- One label, unless it is a star.
  passes-check_label :
      (domain : Text) (i : ℕ) (label : Text)
      → text_eq label (codes "*") ≡ false
      → passes (check_label domain i label) ≡ is_valid_label label
  unfolding check_label is_valid_label is_valid_label_char
  passes-check_label domain i label h = ground arith

  passes-check_labels :
      (domain : Text) (i : ℕ) (labels : List Text)
      → any (λ l. text_eq l (codes "*")) labels ≡ false
      → passes (check_labels domain i labels) ≡ all is_valid_label labels
  unfolding check_labels any all
  passes-check_labels domain i [] h = refl
  passes-check_labels domain i (l ∷ ls) h =
      ground (arith, passes-check_label domain i l, passes-check_labels domain (i + 1) ls)

  -- Two labels or more where there is a dot.
  split_by_count : (p : ℕ → Bool) (s : Text) → ltb (length (split_by p s)) 2 ≡ not (any p s)
  unfolding split_by any
  split_by_count p [] = refl
  split_by_count p (x ∷ s) =
      let (q, qs, k) = split_by-cons p s in
      elim (Bool-cases (p x)) [
        | inl e ↦ rw (e, k) (ground arith)
        | inr e ↦ rw (e, k) (rw k at (split_by_count p s))
      ]

  split_by-no_star :
      (p : ℕ → Bool) (s : Text)
      → contains b'*' s ≡ false
      → any (λ l. text_eq l (codes "*")) (split_by p s) ≡ false
  unfolding split_by any contains text_eq
  split_by-no_star p [] h = refl
  split_by-no_star p (x ∷ s) h =
      let (q, qs, k) = split_by-cons p s in
      let x_other : (x == b'*') ≡ false = ground arith in
      let rest = split_by-no_star p s (unfold contains any in ground arith) in
      elim (Bool-cases (p x)) [
        | inl e ↦ rw e rest
        | inr e ↦ let others = rw k at rest in rw (e, k) (ground (arith, others))
      ]

  strip_star : (s : Text) → contains b'*' s ≡ false → strip_prefix (codes "*.") s ≡ none
  unfolding strip_prefix contains any
  strip_star [] h = refl
  strip_star (c ∷ s) h = ground arith

  passes-validate_labels :
      (domain : Text) (labels : List Text)
      → any (λ l. text_eq l (codes "*")) labels ≡ false
      → passes (validate_labels domain labels)
        ≡ (all is_valid_label labels && not (ltb (length labels) 2))
  unfolding validate_labels count_labels
  passes-validate_labels domain labels h = ground (arith, passes-check_labels domain 0 labels h)

  passes-validate_name :
      (s : Text)
      → contains b'*' s ≡ false
      → passes (validate_name s) ≡ (all is_valid_label (split b'.' s) && contains b'.' s)
  unfolding validate_name split contains
  passes-validate_name s h =
      let labels =
        passes-validate_labels s (split b'.' s) (split_by-no_star (λ x. x == b'.') s h) in
      let two = split_by_count (λ x. x == b'.') s in ground (arith, strip_star s h, labels, two)

  not_localhost : (s : Text) → s ≢ localhost → text_eq s localhost ≡ false
  not_localhost s l = elim (Bool-cases (text_eq s localhost)) [
    | inl e ↦ absurd (l (text_eq→≡ s localhost e))
    | inr e ↦ e
  ]

  passes-validate_domain :
      (s : Text)
      → trim s ≡ s
      → trim_end b'.' s ≡ s
      → contains b'*' s ≡ false
      → s ≢ localhost
      → passes (validate_domain s) ≡ is_valid_domain s
  unfolding validate_domain validate_trimmed is_valid_domain
  passes-validate_domain s t d n l =
      ground (arith, t, d, passes-validate_name s n, not_localhost s l)

  passes_iff : (v : Verdict) (b : Bool) → passes v ≡ b → (v ≡ none) ↔ (b ≡ true)
  passes_iff none b h = (λ k. sym h, λ k. refl)
  passes_iff (some e) b h = (λ k. cc, λ k. cc)

  -- For a domain without white space or dots at its ends and without a star, the validator and the
  -- rule parser agree, except on the one name `localhost`, which has a single label.
  pub validate_domain_iff :
      (s : Text)
      → trim s ≡ s
      → trim_end b'.' s ≡ s
      → contains b'*' s ≡ false
      → s ≢ localhost
      → (validate_domain s ≡ none) ↔ (is_valid_domain s ≡ true)
  validate_domain_iff s t d n l =
      passes_iff (validate_domain s) (is_valid_domain s) (passes-validate_domain s t d n l)
