-- ===== src/Tests/RuleFiles.antt =====
-- src/api/handlers/rules.rs at fixed inputs.
use rust_dns_backend.Base.{
  ℕ, ◌≡◌, refl, sym, ◌⊎◌, true, false, none, some, List, [], ◌∷◌, ◌++◌, length, map, here, there,
  any,
}
use rust_dns_backend.Text.{
  Text, codes, text_eq, contains, trim, trim_end_by, trim_start_by, starts_with, strip_prefix,
}
use rust_dns_backend.Text.Split.{strip_return}
use rust_dns_backend.Json.{string, array, object, cons, nil, with_field, no_fields}
use rust_dns_backend.RuleApi.{
  CustomRow, engine_rule, RulesState, RequestEnv, delete_rule, bulk_action, page_of,
}
use rust_dns_backend.RuleApi.InSync.{Request, bulk, serve, InSync, HasKey, serve-InSync}
use rust_dns_backend.RuleApi.Protected.{imported_rows, serve-imported_rows}
use rust_dns_backend.RuleApi.Export.{export_txt, csv_line, escape_csv_field, newline}
use rust_dns_backend.RuleApi.Import.{
  RuleEntry, ImportEnv, ImportError, done, refused, text_entries, store_entries, import_rules,
  Decoders, no_file, is_rule_line,
}
use rust_dns_backend.RuleApi.Csv.{read_row, row_fields, read_row-csv_line}
use rust_dns_backend.RuleApi.Exported.{IsPlain, enabled_rules, text_entries-export_txt}
use rust_dns_backend.RuleApi.Imported.{Inserted, store_entries-Inserted}
use rust_dns_backend.Tests.Fixtures.{ascii, differ}

abbrev row_of : Text → Text → Text → CustomRow
row_of id rule creator = record {
  id = id;
  rule = rule;
  comment = some (codes "say \"hi\", twice");
  is_enabled = true;
  created_by = creator;
  created_at = codes "then";
  expires_at = none;
}

abbrev own_row : CustomRow
own_row = row_of (codes "1") (codes "||a.com^") (codes "alice")

abbrev list_row : CustomRow
list_row = row_of (codes "2") (codes "||b.com^") (codes "filter:7")

abbrev state : RulesState
state = record {
  rows = own_row ∷ list_row ∷ [];
  loaded = engine_rule own_row ∷ engine_rule list_row ∷ [];
}

abbrev env : RequestEnv
env = record {
  username = codes "alice";
  uuid = codes "3";
  now = codes "now";
  write_ok = true;
  reload_ok = true;
}

differing_ids : own_row.id ≡ list_row.id → ⊥
unfolding text_eq
differing_ids = differ (codes "1") (codes "2") refl

has_key : HasKey state.rows
has_key q r here here e = refl
has_key q r here (there here) e = absurd (differing_ids e)
has_key q r (there here) here e = absurd (differing_ids (sym e))
has_key q r (there here) (there here) e = refl
has_key _ r here (there (there m)) e = elim m [ ]
has_key _ r (there here) (there (there m)) e = elim m [ ]
has_key q r (there (there m)) _ e = elim m [ ]

abbrev disable_all : Request
disable_all = bulk (codes "1" ∷ codes "2" ∷ []) (codes "disable")

serve-InSync_example : InSync (serve env disable_all state)
serve-InSync_example = serve-InSync env disable_all state refl has_key refl

no_list_name : starts_with (codes "filter:") env.username ≡ false
unfolding starts_with strip_prefix
no_list_name = refl

serve-imported_rows_example :
    imported_rows (serve env disable_all state).rows ≡ imported_rows state.rows
serve-imported_rows_example =
    serve-imported_rows env disable_all state (λ d. d) no_list_name has_key

disabled_run :
    map (λ (r : CustomRow). r.is_enabled) (serve env disable_all state).rows ≡ false ∷ true ∷ []
unfolding serve bulk_action
disabled_run = refl

-- A single delete takes the row of a filter list away.
deleted_run : (delete_rule env (codes "2") state).0.rows ≡ own_row ∷ []
unfolding delete_rule
deleted_run = refl

page_run : page_of (some 3) (some 1000) ≡ (200, 400)
unfolding page_of
page_run = refl

quoted_run : escape_csv_field (codes "say \"hi\", twice") ≡ codes "\"say \"\"hi\"\", twice\""
unfolding escape_csv_field
quoted_run = refl

read_row-csv_line_example :
    read_row 7 (csv_line own_row ++ codes "2,") ≡ some (row_fields own_row, codes "2,")
read_row-csv_line_example = read_row-csv_line own_row (codes "2,")

own_row-IsPlain : IsPlain own_row
unfolding contains any trim trim_end_by trim_start_by is_rule_line starts_with strip_prefix
own_row-IsPlain = record {
  one_line = refl;
  no_return = refl;
  trimmed = refl;
  is_rule = refl;
  comment_line_only = refl;
}

text_entries-export_txt_example :
    text_entries (export_txt (codes "2024-01-01") (own_row ∷ []))
    ≡ map (λ r. record { entry_rule = r; entry_comment = none }) (enabled_rules (own_row ∷ []))
unfolding contains any
text_entries-export_txt_example =
    text_entries-export_txt (codes "2024-01-01") (own_row ∷ []) refl (own_row-IsPlain, tt)

abbrev import_env : ImportEnv
import_env = record {
  importer = codes "alice";
  import_time = codes "now";
  import_uuid = λ i. i ∷ [];
  begun = true;
  entry_ok = λ i. true;
  committed = true;
  import_reload_ok = true;
}

abbrev entry : Text → RuleEntry
entry s = record { entry_rule = s; entry_comment = none }

abbrev some_entries : List RuleEntry
some_entries = entry (codes "||a.com^") ∷ entry (codes "||c.com^ ") ∷ entry (codes "||c.com^") ∷ []

imported_run : (store_entries import_env some_entries state).1 ≡ done 1 2 3
unfolding store_entries trim
imported_run = refl

store_entries-Inserted_example :
    (((store_entries import_env some_entries state).0 ≡ state)
      × ((x : ImportError) × ((store_entries import_env some_entries state).1 ≡ refused x)))
    ⊎ ((a b : ℕ) × ((store_entries import_env some_entries state).1
          ≡ done a b (length some_entries))
        × Inserted state.rows some_entries (store_entries import_env some_entries state).0.rows a b)
store_entries-Inserted_example = store_entries-Inserted import_env some_entries state

-- Bytes that are code points, and a parser of one file.
instance abbrev decoders : Decoders
decoders = record {
  from_utf8 = some;
  from_json = λ s. some (
      array (
        cons (string (codes " ||d.com^ "))
          (cons (object (with_field (codes "comment") (string (codes "c")) no_fields)) nil)));
}

json_run :
    (import_rules import_env
      (some (record { filename = none; content_type = none; bytes = codes " [" }))
      state).1
    ≡ done 1 0 1
unfolding import_rules trim
json_run = refl

empty_file_run :
    (import_rules import_env
      (some (record { filename = none; content_type = none; bytes = [] }))
      state).1
    ≡ refused no_file
unfolding import_rules
empty_file_run = refl

-- The second line of a comment is taken for a rule.
split_comment_run :
    text_entries (
      export_txt
        (codes "now")
        (record own_row { comment = some (codes "x" ++ newline ∷ codes "||all.com^") } ∷ []))
    ≡ entry (codes "||all.com^") ∷ entry (codes "||a.com^") ∷ []
unfolding text_entries export_txt trim strip_return
split_comment_run = refl
