-- ===== src/RuleApi/Import.antt =====
-- src/api/handlers/rules.rs, `import_rules`: a file of rules, read as JSON or line by line, and stored
-- in one transaction. The parser of JSON is a parameter.
use rust_dns_backend.Base.{
  ℕ, ◌+◌, Bool, true, false, not, ◌&&◌, ◌||◌, Option, none, some, List, [], ◌∷◌, ◌++◌, map, ltb,
  if◌then◌else◌, is_nil, any, keep_if, length,
}
use rust_dns_backend.Text.{
  Text, Unicode, codes, text_eq, starts_with, ends_with, is_whitespace, trim, trim_start_by,
}
use rust_dns_backend.Text.Split.{lines}
use rust_dns_backend.Json.{Value, string, array, object, to_vec, get_field, as_str}
use rust_dns_backend.Subscription.{contains_text}
use rust_dns_backend.RuleApi.{CustomRow, engine_rule, RulesState}

abbrev pub max_import_size : ℕ
max_import_size = 5242880

-- The field `file` of the form: its name in lower case, its content type, and its bytes.
pub record Upload : Type 0 where
  pub filename : Option Text
  pub content_type : Option Text
  pub bytes : List ℕ

pub record RuleEntry : Type 0 where
  pub entry_rule : Text
  pub entry_comment : Option Text

pub data ImportError : Type 0 where
  file_too_large no_file not_utf8 not_an_array invalid_json no_rules database_failed : ImportError

pub data ImportResult : Type 0 where
  -- `imported`, `skipped` and `total`.
  done : ℕ → ℕ → ℕ → ImportResult
  refused : ImportError → ImportResult

-- `String::from_utf8` and `serde_json::from_str`.
pub record Decoders : Type 0 where
  pub from_utf8 : List ℕ → Option Text
  pub from_json : Text → Option Value

abbrev holds : (Text → Bool) → Option Text → Bool
holds p none = false
holds p (some s) = p s

module _ ⦃u : Unicode⦄ where
  unfoldable pub is_json : Upload → Text → Bool
  unfolding contains_text ends_with starts_with trim_start_by is_whitespace
  is_json upload content =
      let start = trim_start_by is_whitespace content in
      holds (contains_text (codes "application/json")) upload.content_type
      || holds (ends_with (codes ".json")) upload.filename
      || starts_with (codes "[") start
      || starts_with (codes "{") start

  unfoldable pub field_text : Option Value → Option Text
  field_text none = none
  field_text (some v) = as_str v

  abbrev text_or_empty : Option Text → Text
  text_or_empty none = []
  text_or_empty (some s) = s

  -- An item of the array, unless its rule is blank.
  unfoldable pub entry_of : Value → Option RuleEntry
  unfolding trim get_field field_text text_eq
  entry_of (string s) =
      if is_nil (trim s) then none else some (record { entry_rule = trim s; entry_comment = none })
  entry_of (object fields) =
      let rule = trim (text_or_empty (field_text (get_field (codes "rule") fields))) in
      if is_nil rule
      then none
      else some (record {
        entry_rule = rule;
        entry_comment = field_text (get_field (codes "comment") fields);
      })
  entry_of _ = none

  unfoldable pub entries_of : List Value → List RuleEntry
  unfolding entry_of
  entries_of [] = []
  entries_of (v ∷ vs) =
      let rest = entries_of vs in elim (entry_of v) [ none ↦ rest | some e ↦ e ∷ rest ]

  unfoldable pub is_rule_line : Text → Bool
  unfolding starts_with
  is_rule_line line = not (is_nil line) && not (starts_with (codes "#") line)

  abbrev plain_entry : Text → RuleEntry
  plain_entry line = record { entry_rule = line; entry_comment = none }

  -- One rule on a line, without blank lines and comments.
  unfoldable pub text_entries : Text → List RuleEntry
  unfolding lines trim keep_if is_rule_line
  text_entries content = map plain_entry (keep_if is_rule_line (map trim (lines content)))

  pub data Parsed : Type 0 where
    entries : List RuleEntry → Parsed
    malformed : ImportError → Parsed

  unfoldable pub json_entries : Option Value → Parsed
  unfolding entries_of to_vec
  json_entries none = malformed invalid_json
  json_entries (some (array vs)) = entries (entries_of (to_vec vs))
  json_entries (some _) = malformed not_an_array

  module _ ⦃d : Decoders⦄ where
    unfoldable pub parse_file : Upload → Text → Parsed
    unfolding is_json json_entries text_entries trim
    parse_file upload content =
        if is_json upload content
        then json_entries (d.from_json (trim content))
        else entries (text_entries content)

-- The inputs of the transaction: who imports, the time, the identifiers, and which statements
-- succeed, by the number of the entry.
pub record ImportEnv : Type 0 where
  pub importer : Text
  pub import_time : Text
  pub import_uuid : ℕ → Text
  pub begun : Bool
  pub entry_ok : ℕ → Bool
  pub committed : Bool
  pub import_reload_ok : Bool

abbrev pub has_rule : Text → CustomRow → Bool
has_rule rule r = text_eq r.rule rule

abbrev pub imported_row : ImportEnv → ℕ → Text → Option Text → CustomRow
imported_row env i rule comment = record {
  id = env.import_uuid i;
  rule = rule;
  comment = comment;
  is_enabled = true;
  created_by = env.importer;
  created_at = env.import_time;
  expires_at = none;
}

module _ ⦃u : Unicode⦄ where
  -- The loop over the entries, with the counts of imported and skipped ones. `none` is a rollback.
  unfoldable pub insert_entries :
      ImportEnv → ℕ → List RuleEntry → List CustomRow → ℕ → ℕ → Option (List CustomRow × ℕ × ℕ)
  unfolding trim any text_eq
  insert_entries env i [] rows imported skipped = some (rows, imported, skipped)
  insert_entries env i (e ∷ es) rows imported skipped =
      let rule = trim e.entry_rule in
      let skip = insert_entries env (i + 1) es rows imported (skipped + 1) in
      let insert =
        insert_entries env (i + 1) es (rows ++ imported_row env i rule e.entry_comment ∷ [])
          (imported + 1) skipped in
      if is_nil rule
      then skip
      else if not (env.entry_ok i)
      then none
      else if any (has_rule rule) rows
      then skip
      else insert

  -- A reload that fails is only logged.
  unfoldable pub store_entries : ImportEnv → List RuleEntry → RulesState → RulesState × ImportResult
  unfolding insert_entries
  store_entries env es s =
      let stored : RulesState × ImportResult = elim (insert_entries env 0 es s.rows 0 0) [
        | none ↦ (s, refused database_failed)
        | some (rows, imported, skipped) ↦
            let loaded =
              if ltb 0 imported && env.import_reload_ok then map engine_rule rows else s.loaded in
            if env.committed
            then (record { rows = rows; loaded = loaded }, done imported skipped (length es))
            else (s, refused database_failed)
      ] in
      if is_nil es
      then (s, refused no_rules)
      else if not env.begun
      then (s, refused database_failed)
      else stored

  unfoldable pub import_rules :
      ⦃d : Decoders⦄ → ImportEnv → Option Upload → RulesState → RulesState × ImportResult
  unfolding parse_file store_entries
  import_rules env none s = (s, refused no_file)
  import_rules ⦃d⦄ env (some upload) s =
      let read : RulesState × ImportResult = elim (d.from_utf8 upload.bytes) [
        | none ↦ (s, refused not_utf8)
        | some content ↦ elim (parse_file ⦃d = d⦄ upload content) [
          | malformed e ↦ (s, refused e)
          | entries es ↦ store_entries env es s
        ]
      ] in
      if ltb max_import_size (length upload.bytes)
      then (s, refused file_too_large)
      else if is_nil upload.bytes
      then (s, refused no_file)
      else read
