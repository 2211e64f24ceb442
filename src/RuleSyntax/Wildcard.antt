-- ===== src/RuleSyntax/Wildcard.antt =====
-- src/dns/rules.rs, `wildcard_to_regex`: the pattern that is written is read back as it was meant.
use rust_dns_backend.Base.{
  ℕ, zero, suc, ◌≤◌, ◌≡◌, refl, ap, ◌∙◌, inl, inr, true, false, ◌||◌, none, some, List, [], ◌∷◌,
  ◌++◌, ◌==◌, map, arith, Bool-cases, length, if◌then◌else◌,
}
use rust_dns_backend.Text.{Text, Unicode, codes, is_alphanumeric, strip_prefix}
use rust_dns_backend.RuleSyntax.{wildcard_char, wildcard_body}

-- What a regular expression of this kind is made of: one or more characters that are no dot, or one
-- given character.
pub data Token : Type 0 where
  in_label : Token
  literal : ℕ → Token

-- The syntax of the crate `regex`: the class `[^.]+`, a character behind a backslash, and any other
-- character for itself. Each token takes at least one character, so that the length is enough fuel.
unfoldable pub read_regex : ℕ → Text → List Token
read_regex zero s = []
read_regex (suc fuel) [] = []
read_regex (suc fuel) (c ∷ s) = elim (strip_prefix (codes "[^.]+") (c ∷ s)) [
  | some rest ↦ in_label ∷ read_regex fuel rest
  | none ↦
      if c == b'\\'
      then (elim s [ [] ↦ [] | d ∷ rest ↦ literal d ∷ read_regex fuel rest ])
      else literal c ∷ read_regex fuel s
]

no_class_prefix :
    (c : ℕ) (rest : Text) → (b'[' == c) ≡ false → strip_prefix (codes "[^.]+") (c ∷ rest) ≡ none
unfolding strip_prefix
no_class_prefix c rest h = rw h refl

read_plain :
    (fuel c : ℕ) (rest : Text)
    → (b'[' == c) ≡ false
    → (c == b'\\') ≡ false
    → read_regex (suc fuel) (c ∷ rest) ≡ literal c ∷ read_regex fuel rest
unfolding read_regex
read_plain fuel c rest no_class no_escape =
    rw (no_class_prefix c rest no_class, no_escape, read_regex) refl

-- What a character of the rule means.
abbrev pub token_of : ℕ → Token
token_of ch = if ch == b'*' then in_label else literal ch

module _ ⦃u : Unicode⦄ where
  -- A character that stands for itself is no mark of the syntax.
  plain_char :
      (ch : ℕ)
      → (is_alphanumeric ch || ch == b'-' || ch == b'_') ≡ true
      → ((b'[' == ch) ≡ false) × ((ch == b'\\') ≡ false)
  unfolding is_alphanumeric
  plain_char ch h = (ground arith, ground arith)

  read_regex-wildcard_char :
      (fuel ch : ℕ) (rest : Text)
      → read_regex (suc fuel) (wildcard_char ch ++ rest) ≡ token_of ch ∷ read_regex fuel rest
  unfolding read_regex wildcard_char strip_prefix
  read_regex-wildcard_char fuel ch rest = elim (Bool-cases (ch == b'*')) [
    | inl e ↦ rw e refl
    | inr e ↦ elim (Bool-cases (ch == b'.')) [
      | inl k ↦ let dot : ch ≡ b'.' = ground arith in rw dot refl
      | inr k ↦ elim (Bool-cases (is_alphanumeric ch || ch == b'-' || ch == b'_')) [
        | inl j ↦
            let (no_class, no_escape) = plain_char ch j in
            rw (e, k, j) (read_plain fuel ch rest no_class no_escape)
        | inr j ↦ rw (e, k, j) refl
      ]
    ]
  ]

  -- The regular expression that a wildcard becomes means what the wildcard says: read back, it is one
  -- token for each character, a star for one or more characters within a label and every other
  -- character, the marks of the syntax included, for itself. Fuel at least the length is enough.
  pub read_regex-wildcard_body :
      (fuel : ℕ) (pattern : Text)
      → length pattern ≤ fuel
      → read_regex fuel (wildcard_body pattern) ≡ map token_of pattern
  unfolding wildcard_body
  read_regex-wildcard_body zero [] h = unfold read_regex in refl
  read_regex-wildcard_body (suc fuel) [] h = unfold read_regex in refl
  read_regex-wildcard_body zero (ch ∷ pattern) h = absurd (omega arith)
  read_regex-wildcard_body (suc fuel) (ch ∷ pattern) h =
      read_regex-wildcard_char fuel ch (wildcard_body pattern)
      ∙ ap (λ ts. token_of ch ∷ ts) (read_regex-wildcard_body fuel pattern (omega arith))
