-- ===== src/RuleApi/Csv.antt =====
-- src/api/handlers/rules.rs, `escape_csv_field`: the CSV of the export, read back by the rules of
-- RFC 4180.
use rust_dns_backend.Base.{
  ℕ, zero, suc, ◌≡◌, refl, ap, ◌∙◌, inl, inr, Bool, true, false, ◌||◌, Option, none, some, List, [],
  ◌∷◌, ◌++◌, ◌==◌, if◌then◌else◌, arith, any, length, append_assoc, Bool-cases,
}
use rust_dns_backend.Text.{Text, contains}
use rust_dns_backend.RuleApi.{CustomRow}
use rust_dns_backend.RuleApi.Export.{
  newline, quote, double_quotes, escape_csv_field, or_empty, bool_text, csv_line,
}

abbrev push_char : ℕ → Option (Text × Text) → Option (Text × Text)
push_char c none = none
push_char c (some (s, rest)) = some (c ∷ s, rest)

-- A field behind its opening quote: a doubled quote is a quote, a single one ends it.
unfoldable pub read_quoted : Text → Option (Text × Text)
read_quoted [] = none
read_quoted (c ∷ []) = if c == quote then some ([], []) else none
read_quoted (c ∷ d ∷ s) =
    let escaped = push_char quote (read_quoted s) in
    let plain = push_char c (read_quoted (d ∷ s)) in
    if c == quote then (if d == quote then escaped else some ([], d ∷ s)) else plain

unfoldable pub is_separator : ℕ → Bool
is_separator c = c == b',' || c == newline

unfoldable pub read_plain : Text → Text × Text
unfolding is_separator
read_plain [] = ([], [])
read_plain (c ∷ s) =
    let (f, rest) = read_plain s in if is_separator c then ([], c ∷ s) else (c ∷ f, rest)

unfoldable pub read_field : Text → Option (Text × Text)
unfolding read_quoted read_plain
read_field [] = some ([], [])
read_field (c ∷ s) = if c == quote then read_quoted s else some (read_plain (c ∷ s))

-- The fields of a line; the number bounds them.
unfoldable pub read_row : ℕ → Text → Option (List Text × Text)
unfolding read_field
read_row zero s = none
read_row (suc n) s = elim (read_field s) [
  | none ↦ none
  | some (f, []) ↦ none
  | some (f, c ∷ rest) ↦ elim (c == b',') [
    | true ↦ elim (read_row n rest) [ none ↦ none | some (fs, rest') ↦ some (f ∷ fs, rest') ]
    | false ↦ some (f ∷ [], rest)
  ]
]

read_quoted-other :
    (c : ℕ) (s : Text) → (c == quote) ≡ false → read_quoted (c ∷ s) ≡ push_char c (read_quoted s)
unfolding read_quoted
read_quoted-other c [] h = ground arith
read_quoted-other c (d ∷ s) h = rw h

read_quoted-double :
    (s : Text) (sep : ℕ) (rest : Text)
    → is_separator sep ≡ true
    → read_quoted (double_quotes s ++ quote ∷ sep ∷ rest) ≡ some (s, sep ∷ rest)
unfolding double_quotes is_separator
read_quoted-double [] sep rest h = unfold read_quoted in ground arith
read_quoted-double (x ∷ s) sep rest h = elim (Bool-cases (x == quote)) [
  | inl e ↦
      let is_quote : x ≡ quote = ground arith in
      rw e (
        escaped (double_quotes s ++ quote ∷ sep ∷ rest)
        ∙ (ap (push_char quote) (read_quoted-double s sep rest h) ∙ rw is_quote))
  | inr e ↦ rw e (
      read_quoted-other x (double_quotes s ++ quote ∷ sep ∷ rest) e
      ∙ ap (push_char x) (read_quoted-double s sep rest h))
]
  where
    escaped : (t : Text) → read_quoted (quote ∷ quote ∷ t) ≡ push_char quote (read_quoted t)
    escaped t = unfold read_quoted in refl

-- No mark of the format stands in the text.
abbrev is_marked : Text → Bool
is_marked s = contains b',' s || contains quote s || contains newline s

read_plain-append :
    (s : Text) (sep : ℕ) (rest : Text)
    → is_marked s ≡ false
    → is_separator sep ≡ true
    → read_plain (s ++ sep ∷ rest) ≡ (s, sep ∷ rest)
unfolding read_plain is_separator contains any
read_plain-append [] sep rest h k = rw k
read_plain-append (x ∷ s) sep rest h k = ground (arith, read_plain-append s sep rest)

read_field-plain :
    (s : Text) (sep : ℕ) (rest : Text)
    → is_marked s ≡ false
    → is_separator sep ≡ true
    → read_field (s ++ sep ∷ rest) ≡ some (s, sep ∷ rest)
unfolding read_field is_separator
read_field-plain [] sep rest h k = unfold read_plain is_separator in ground arith
read_field-plain (x ∷ s) sep rest h k =
    let not_quote : (x == quote) ≡ false = unfold contains any in ground arith in
    rw not_quote (ap some (read_plain-append (x ∷ s) sep rest h k))

read_field-escape :
    (s : Text) (sep : ℕ) (rest : Text)
    → is_separator sep ≡ true
    → read_field (escape_csv_field s ++ sep ∷ rest) ≡ some (s, sep ∷ rest)
unfolding escape_csv_field
read_field-escape s sep rest h = elim (Bool-cases (is_marked s)) [
  | inr e ↦ rw e (read_field-plain s sep rest e h)
  | inl e ↦ rw e (
      quoted (double_quotes s ++ quote ∷ []) sep rest
      ∙ (ap read_quoted (append_assoc (double_quotes s) (quote ∷ []) (sep ∷ rest))
          ∙ read_quoted-double s sep rest h))
]
  where
    quoted :
        (t : Text) (sep : ℕ) (rest : Text)
        → read_field (quote ∷ t ++ sep ∷ rest) ≡ read_quoted (t ++ sep ∷ rest)
    quoted t sep rest = unfold read_field in refl

-- Fields with commas between them and a line feed behind the last.
unfoldable pub fields_text : List Text → Text
unfolding escape_csv_field
fields_text [] = []
fields_text (f ∷ []) = escape_csv_field f ++ newline ∷ []
fields_text (f ∷ g ∷ fs) = escape_csv_field f ++ b',' ∷ fields_text (g ∷ fs)

read_row-fields :
    (f : Text) (fs : List Text) (rest : Text)
    → read_row (suc (length fs)) (fields_text (f ∷ fs) ++ rest) ≡ some (f ∷ fs, rest)
unfolding fields_text read_row
read_row-fields f [] rest =
    rw (append_assoc (escape_csv_field f) (newline ∷ []) rest)
      (ground (arith, read_field-escape f newline rest refl))
read_row-fields f (g ∷ fs) rest =
    rw (append_assoc (escape_csv_field f) (b',' ∷ fields_text (g ∷ fs)) rest) (
      ground (
        arith,
        read_field-escape f b',' (fields_text (g ∷ fs) ++ rest) refl,
        read_row-fields g fs rest,
      ))

-- The columns of the export.
unfoldable pub row_fields : CustomRow → List Text
row_fields r =
    r.id
    ∷ r.rule
    ∷ or_empty r.comment
    ∷ bool_text r.is_enabled
    ∷ r.created_by
    ∷ r.created_at
    ∷ or_empty r.expires_at
    ∷ []

escape-bool_text : (b : Bool) → escape_csv_field (bool_text b) ≡ bool_text b
unfolding escape_csv_field contains any
escape-bool_text true = refl
escape-bool_text false = refl

csv_line-fields : (r : CustomRow) → csv_line r ≡ fields_text (row_fields r)
unfolding csv_line fields_text row_fields
csv_line-fields r = rw (escape-bool_text r.is_enabled)

-- A line of the CSV export, whatever commas, quotes and line feeds its fields hold, is read back by
-- the rules of the format as these seven fields, up to its end and no further.
pub read_row-csv_line :
    (r : CustomRow) (rest : Text) → read_row 7 (csv_line r ++ rest) ≡ some (row_fields r, rest)
read_row-csv_line r rest = rw (csv_line-fields r) (
    unfold row_fields in
    read_row-fields r.id
      (r.rule
        ∷ or_empty r.comment
        ∷ bool_text r.is_enabled
        ∷ r.created_by
        ∷ r.created_at
        ∷ or_empty r.expires_at
        ∷ [])
      rest)
