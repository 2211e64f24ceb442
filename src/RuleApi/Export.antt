-- ===== src/RuleApi/Export.antt =====
-- src/api/handlers/rules.rs, `export_rules`: the rules as CSV and as text. The rows are those that
-- the query gives.
use rust_dns_backend.Base.{
  ℕ, Bool, true, false, ◌||◌, Option, none, some, List, [], ◌∷◌, ◌++◌, ◌==◌, if◌then◌else◌, is_nil,
}
use rust_dns_backend.Text.{Text, codes, contains}
use rust_dns_backend.RuleApi.{CustomRow}

abbrev pub newline : ℕ
newline = 10

abbrev pub quote : ℕ
quote = 34

-- `replace('"', "\"\"")`
unfoldable pub double_quotes : Text → Text
double_quotes [] = []
double_quotes (c ∷ s) =
    let rest = double_quotes s in if c == quote then quote ∷ quote ∷ rest else c ∷ rest

unfoldable pub escape_csv_field : Text → Text
unfolding contains double_quotes
escape_csv_field s =
    if contains b',' s || contains quote s || contains newline s
    then quote ∷ double_quotes s ++ quote ∷ []
    else s

abbrev pub or_empty : Option Text → Text
or_empty none = []
or_empty (some s) = s

abbrev pub bool_text : Bool → Text
bool_text true = codes "true"
bool_text false = codes "false"

unfoldable pub csv_line : CustomRow → Text
unfolding escape_csv_field
csv_line r =
    escape_csv_field r.id
    ++ (b',' ∷ escape_csv_field r.rule
        ++ (b',' ∷ escape_csv_field (or_empty r.comment)
            ++ (b',' ∷ bool_text r.is_enabled
                ++ (b',' ∷ escape_csv_field r.created_by
                    ++ (b',' ∷ escape_csv_field r.created_at
                        ++ (b',' ∷ escape_csv_field (or_empty r.expires_at) ++ newline ∷ []))))))

unfoldable pub csv_lines : List CustomRow → Text
unfolding csv_line
csv_lines [] = []
csv_lines (r ∷ rows) = csv_line r ++ csv_lines rows

unfoldable pub export_csv : List CustomRow → Text
unfolding csv_lines
export_csv rows =
    codes "id,rule,comment,is_enabled,created_by,created_at,expires_at" ++ newline ∷ csv_lines rows

-- `# {comment}`, unless there is none.
unfoldable pub comment_line : Option Text → Text
comment_line none = []
comment_line (some c) = if is_nil c then [] else codes "# " ++ (c ++ newline ∷ [])

unfoldable pub rule_line : CustomRow → Text
rule_line r =
    if r.is_enabled
    then r.rule ++ newline ∷ []
    else codes "# (disabled) " ++ (r.rule ++ newline ∷ [])

unfoldable pub text_lines : List CustomRow → Text
unfolding comment_line rule_line
text_lines [] = []
text_lines (r ∷ rows) = comment_line r.comment ++ (rule_line r ++ text_lines rows)

-- The first two lines of the text; the dash is one code point.
abbrev title : Text
title = codes "# Rust DNS " ++ 8212 ∷ codes " custom rules export"

unfoldable pub export_txt : Text → List CustomRow → Text
unfolding text_lines
export_txt now rows =
    title ++ newline ∷ codes "# Exported: " ++ (now ++ newline ∷ newline ∷ text_lines rows)
