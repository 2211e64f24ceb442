-- ===== src/Subscription/Sync.antt =====
-- src/dns/subscription.rs, `sync_filter_list`: the rules of a list replaced in one transaction. The
-- table is the list of its rows; the outcomes of the statements are inputs.
use rust_dns_backend.Base.{
  ℕ, zero, suc, ◌+◌, ◌-◌, is_nil, Bool, true, not, ◌&&◌, Option, none, some, List, [], ◌∷◌, ◌++◌,
  if◌then◌else◌, any, keep_if, length,
}
use rust_dns_backend.Text.{Text, Unicode, codes, text_eq}
use rust_dns_backend.Map.{Map, map_get, map_insert}
use rust_dns_backend.Subscription.{parse_list}
use rust_dns_backend.Subscription.Guard.{content, failed, HttpCrate, fetch_remote_filter}

-- A row of `custom_rules`; the comment of an inserted row is NULL.
pub record RuleRow : Type 0 where
  pub row_id : Text
  pub rule : Text
  pub is_enabled : Bool
  pub created_by : Text
  pub created_at : Text

unfoldable pub filter_prefix : Text → Text
filter_prefix filter_id = codes "filter:" ++ filter_id

-- `DELETE FROM custom_rules WHERE created_by = $1`
unfoldable pub delete_rules : Text → List RuleRow → List RuleRow
unfolding keep_if text_eq
delete_rules creator rows = keep_if (λ r. not (text_eq r.created_by creator)) rows

-- `INSERT ... ON CONFLICT (id) DO NOTHING`, row by row.
unfoldable pub insert_row : RuleRow → List RuleRow → List RuleRow
unfolding any text_eq
insert_row r rows = if any (λ x. text_eq x.row_id r.row_id) rows then rows else rows ++ r ∷ []

unfoldable pub insert_rows : List RuleRow → List RuleRow → List RuleRow
unfolding insert_row
insert_rows [] rows = rows
insert_rows (r ∷ rs) rows = insert_rows rs (insert_row r rows)

abbrev pub batch_limit : ℕ
batch_limit = 200

-- `chunks(size)`: `left` is what the chunk in hand still takes.
unfoldable pub chunks_from : {A : Type 0} → ℕ → ℕ → List A → List A → List (List A)
chunks_from size left chunk [] = if is_nil chunk then [] else chunk ∷ []
chunks_from size zero chunk (x ∷ xs) = chunk ∷ chunks_from size (size - 1) (x ∷ []) xs
chunks_from size (suc left) chunk (x ∷ xs) = chunks_from size left (chunk ++ x ∷ []) xs

unfoldable pub chunks : {A : Type 0} → ℕ → List A → List (List A)
unfolding chunks_from
chunks size xs = chunks_from size size [] xs

-- The statements' outcomes, the identifiers that `uuid` makes, and the time.
pub record Outcomes : Type 0 where
  pub begun : Bool
  pub deleted : Bool
  pub inserted : ℕ → Bool
  pub committed : Bool
  pub updated : Bool
  pub uuid : ℕ → Text
  pub now : Text

unfoldable pub rows_of : Outcomes → Text → ℕ → List Text → List RuleRow
rows_of o creator i [] = []
rows_of o creator i (r ∷ rs) =
    record {
      row_id = o.uuid i;
      rule = r;
      is_enabled = true;
      created_by = creator;
      created_at = o.now;
    }
    ∷ rows_of o creator (i + 1) rs

-- The loop over the chunks: `batch` counts them and `next` the identifiers.
unfoldable pub insert_chunks :
    Outcomes → Text → ℕ → ℕ → List (List Text) → List RuleRow → Option (List RuleRow)
unfolding insert_rows rows_of
insert_chunks o creator batch next [] rows = some rows
insert_chunks o creator batch next (chunk ∷ chunks) rows =
    let others =
      insert_chunks o creator (batch + 1) (next + length chunk) chunks
        (insert_rows (rows_of o creator next chunk) rows) in
    if o.inserted batch then others else none

-- The rows once the transaction is committed; without a commit nothing has changed.
unfoldable pub replaced_rows : Outcomes → Text → List Text → List RuleRow → Option (List RuleRow)
unfolding insert_chunks chunks delete_rules
replaced_rows o creator rules rows =
    if not (o.begun && o.deleted)
    then none
    else elim (insert_chunks o creator 0 0 (chunks batch_limit rules) (delete_rules creator rows)) [
      | none ↦ none
      | some rows' ↦ if o.committed then some rows' else none
    ]

pub record RuleTables : Type 0 where
  pub rules : List RuleRow
  -- `rule_count` and `last_updated` of a row of `filter_lists`.
  pub lists : Map (ℕ × Text)

unfoldable pub update_list : Text → ℕ → Text → Map (ℕ × Text) → Map (ℕ × Text)
unfolding map_get map_insert
update_list id n now lists = elim (map_get id lists) [
  | none ↦ lists
  | some _ ↦ map_insert id (n, now) lists
]

module _ ⦃u : Unicode⦄ where
  -- `block_rules` and then `allow_rules`.
  unfoldable pub all_rules : Text → List Text
  unfolding parse_list
  all_rules text = let (block, allow) = parse_list text in block ++ allow

  -- What is stored of a list that was fetched; the result is the number of its rules.
  unfoldable pub store_list : RuleTables → Text → Outcomes → List Text → RuleTables × Option ℕ
  unfolding replaced_rows filter_prefix update_list
  store_list t filter_id o rules = elim (replaced_rows o (filter_prefix filter_id) rules t.rules) [
    | none ↦ (t, none)
    | some rows ↦
        if o.updated
        then (
          record { rules = rows; lists = update_list filter_id (length rules) o.now t.lists },
          some (length rules),
        )
        else (record t { rules = rows }, none)
  ]

  unfoldable pub sync_filter_list :
      ⦃http : HttpCrate⦄ → RuleTables → Text → Text → Outcomes → RuleTables × Option ℕ
  unfolding fetch_remote_filter store_list all_rules
  sync_filter_list t filter_id url o = elim (fetch_remote_filter url) [
    | failed e ↦ (t, none)
    | content text ↦ store_list t filter_id o (all_rules text)
  ]
