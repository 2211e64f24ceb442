-- ===== src/RuleApi/Exported.antt =====
-- src/api/handlers/rules.rs: rules exported as text, and imported again.
use rust_dns_backend.Base.{
  ℕ, ◌≡◌, refl, ap, ◌∙◌, inl, inr, Bool, true, false, Option, none, some, List, [], ◌∷◌, ◌++◌, ◌==◌,
  map, if◌then◌else◌, arith, any, keep_if, append_assoc, Bool-cases, All,
}
use rust_dns_backend.Text.{
  Text, Unicode, codes, contains, trim, trim_start_by, trim_end_by, is_whitespace, starts_with,
  strip_prefix,
}
use rust_dns_backend.Text.Split.{split, split_by, lines, lines_of, strip_return}
use rust_dns_backend.Text.SplitLaws.{split_by-append, split_by_absent, split_by-cons}
use rust_dns_backend.RuleApi.{CustomRow}
use rust_dns_backend.RuleApi.Export.{
  newline, comment_line, rule_line, text_lines, export_txt, or_empty,
}
use rust_dns_backend.RuleApi.Import.{RuleEntry, is_rule_line, text_entries}

-- The lines of a text that begins with a whole line.
lines-append :
    (s t : Text) → contains newline s ≡ false → lines (s ++ newline ∷ t) ≡ strip_return s ∷ lines t
unfolding lines split contains lines_of
lines-append s t h =
    let (q, qs, k) = split_by-cons (λ x. x == 10) t in
    rw (split_by-append (λ x. x == 10) s newline t refl, split_by_absent (λ x. x == 10) s h, k)

strip_return_absent : (s : Text) → contains 13 s ≡ false → strip_return s ≡ s
unfolding strip_return contains any
strip_return_absent [] h = refl
strip_return_absent (c ∷ []) h = ground arith
strip_return_absent (c ∷ d ∷ s) h =
    ap (λ (t : Text). c ∷ t) (strip_return_absent (d ∷ s) (unfold contains any in ground arith))

strip_return-head : (c d : ℕ) (s : Text) → (t : Text) × (strip_return (c ∷ d ∷ s) ≡ c ∷ t)
unfolding strip_return
strip_return-head c d s = (strip_return (d ∷ s), refl)

trim_end_by-head :
    (p : ℕ → Bool) (c : ℕ) (s : Text) → p c ≡ false → (t : Text) × (trim_end_by p (c ∷ s) ≡ c ∷ t)
unfolding trim_end_by
trim_end_by-head p c s h = (trim_end_by p s, ground arith)

module _ ⦃u : Unicode⦄ where
  -- The lines that the import takes as rules.
  unfoldable pub taken : List Text → List Text
  unfolding keep_if is_rule_line trim
  taken ls = keep_if is_rule_line (map trim ls)

  hash-taken : (l t : Text) (ls : List Text) → trim l ≡ b'#' ∷ t → taken (l ∷ ls) ≡ taken ls
  unfolding taken keep_if is_rule_line starts_with strip_prefix
  hash-taken l t ls h = rw h

  -- A comment is no rule, wherever it is cut.
  comment-taken :
      (s : Text) (ls : List Text) → taken (strip_return (b'#' ∷ b' ' ∷ s) ∷ ls) ≡ taken ls
  comment-taken s ls =
      let (t, e) = strip_return-head b'#' b' ' s in
      let hash : is_whitespace b'#' ≡ false = unfold is_whitespace in refl in
      let (t', e') = trim_end_by-head is_whitespace b'#' t hash in
      let trimmed : trim (b'#' ∷ t) ≡ b'#' ∷ t' = unfold trim trim_start_by in rw hash e' in
      hash-taken (strip_return (b'#' ∷ b' ' ∷ s)) t' ls (ap trim e ∙ trimmed)

  commented :
      (s t : Text)
      → contains newline s ≡ false
      → taken (lines (b'#' ∷ b' ' ∷ s ++ newline ∷ t)) ≡ taken (lines t)
  commented s t h =
      let clean : contains newline (b'#' ∷ b' ' ∷ s) ≡ false = unfold contains any in h in
      ap taken (lines-append (b'#' ∷ b' ' ∷ s) t clean) ∙ comment-taken s (lines t)

  blank-taken : (ls : List Text) → taken ([] ∷ ls) ≡ taken ls
  unfolding taken keep_if trim trim_start_by trim_end_by is_rule_line
  blank-taken ls = refl

  rule-taken :
      (r : Text) (ls : List Text)
      → contains 13 r ≡ false
      → trim r ≡ r
      → is_rule_line r ≡ true
      → taken (strip_return r ∷ ls) ≡ r ∷ taken ls
  unfolding taken keep_if
  rule-taken r ls h t k = rw (strip_return_absent r h, t, k)

  -- A row that the format can hold: its rule is one trimmed line that is no comment, and its comment
  -- is one line.
  pub record IsPlain (row : CustomRow) : Type 0 where
    pub one_line : contains newline row.rule ≡ false
    pub no_return : contains 13 row.rule ≡ false
    pub trimmed : trim row.rule ≡ row.rule
    pub is_rule : is_rule_line row.rule ≡ true
    pub comment_line_only : contains newline (or_empty row.comment) ≡ false

  comment-lines :
      (c : Option Text) (t : Text)
      → contains newline (or_empty c) ≡ false
      → taken (lines (comment_line c ++ t)) ≡ taken (lines t)
  unfolding comment_line
  comment-lines none t h = refl
  comment-lines (some []) t h = refl
  comment-lines (some (x ∷ c)) t h =
      ap (λ (r : Text). taken (lines (b'#' ∷ b' ' ∷ r))) (append_assoc (x ∷ c) (newline ∷ []) t)
      ∙ commented (x ∷ c) t h

  row-lines :
      (row : CustomRow) (t : Text)
      → IsPlain row
      → taken (lines (rule_line row ++ t))
        ≡ (if row.is_enabled then row.rule ∷ taken (lines t) else taken (lines t))
  unfolding rule_line
  row-lines row t p = elim (Bool-cases row.is_enabled) [
    | inl e ↦
        rw (e, append_assoc row.rule (newline ∷ []) t, lines-append row.rule t p.one_line)
          (rule-taken row.rule (lines t) p.no_return p.trimmed p.is_rule)
    | inr e ↦
        let clean : contains newline (codes "(disabled) " ++ row.rule) ≡ false =
          unfold contains any in p.one_line in
        rw (e, append_assoc row.rule (newline ∷ []) t)
          (commented (codes "(disabled) " ++ row.rule) t clean)
  ]

  -- The rules of the rows that are enabled.
  unfoldable pub enabled_rules : List CustomRow → List Text
  enabled_rules [] = []
  enabled_rules (r ∷ rows) =
      let rest = enabled_rules rows in if r.is_enabled then r.rule ∷ rest else rest

  text_lines-taken :
      (rows : List CustomRow)
      → All IsPlain rows
      → taken (lines (text_lines rows)) ≡ enabled_rules rows
  unfolding text_lines enabled_rules
  text_lines-taken [] h = unfold taken lines split split_by lines_of keep_if in refl
  text_lines-taken (r ∷ rows) h =
      comment-lines r.comment (rule_line r ++ text_lines rows) h.0.comment_line_only
      ∙ (row-lines r (text_lines rows) h.0 ∙ rw (text_lines-taken rows h.1))

  -- The text export, read as an import reads it, gives the rules of the enabled rows in their order;
  -- comments, disabled rules and the title give none. Each rule is one trimmed line that is no comment,
  -- and each comment, like the time, is one line.
  pub text_entries-export_txt :
      (now : Text) (rows : List CustomRow)
      → contains newline now ≡ false
      → All IsPlain rows
      → text_entries (export_txt now rows)
        ≡ map (λ r. record { entry_rule = r; entry_comment = none }) (enabled_rules rows)
  unfolding text_entries export_txt strip_return taken
  text_entries-export_txt now rows h p =
      ap (map plain) (title_taken ∙ (time_taken ∙ (blank ∙ text_lines-taken rows p)))
    where
      plain : Text → RuleEntry
      plain r = record { entry_rule = r; entry_comment = none }

      body : Text
      body = text_lines rows

      title_taken :
          taken (lines (export_txt now rows))
          ≡ taken (lines (codes "# Exported: " ++ (now ++ newline ∷ newline ∷ body)))
      title_taken =
          commented (codes "Rust DNS " ++ 8212 ∷ codes " custom rules export")
            (codes "# Exported: " ++ (now ++ newline ∷ newline ∷ body))
            (unfold contains any in refl)

      time_taken :
          taken (lines (codes "# Exported: " ++ (now ++ newline ∷ newline ∷ body)))
          ≡ taken (lines (newline ∷ body))
      time_taken = commented (codes "Exported: " ++ now) (newline ∷ body) (unfold contains any in h)

      blank : taken (lines (newline ∷ body)) ≡ taken (lines body)
      blank =
          ap taken (lines-append [] body (unfold contains any in refl)) ∙ blank-taken (lines body)
