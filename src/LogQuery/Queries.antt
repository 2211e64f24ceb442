-- ===== src/LogQuery/Queries.antt =====
-- src/api/handlers/query_log_advanced.rs: the statements that the handlers run, as their SQL and the
-- values that are bound to it. The rows that come back are only put into JSON.
use rust_dns_backend.Base.{
  ℕ, zero, suc, ℤ, pos, ◌+◌, Bool, true, false, ◌||◌, Option, none, some, List, [], ◌∷◌, ◌++◌,
  leb_ℤ, ◌==◌, if◌then◌else◌, is_nil, length, any,
}
use rust_dns_backend.Text.{Text, codes, text_eq, decimal}
use rust_dns_backend.Text.Split.{join}
use rust_dns_backend.Error.{AppResult, ok, err, validation, ◌>>=◌, ◌>>◌}
use rust_dns_backend.Json.{Value, null, bool, int, other_number, string, array, object}
use rust_dns_backend.LogQuery.{Filter, QueryBuilder, new_builder, add_filters}
use rust_dns_backend.LogQuery.Relative.{Chrono, parse_relative_time}

-- `result.find('?')` and `replace_range`: the first mark replaced.
unfoldable pub replace_mark : Text → Text → Option Text
replace_mark new [] = none
replace_mark new (c ∷ s) =
    let rest : Option Text = elim (replace_mark new s) [ none ↦ none | some t ↦ some (c ∷ t) ] in
    if c == b'?' then some (new ++ s) else rest

unfoldable pub dollar : ℕ → Text
unfolding decimal
dollar n = b'$' ∷ decimal n

-- The loop of `pg_numbered`. Each round takes one mark away.
unfoldable pub pg_loop : ℕ → ℕ → Text → Text
unfolding replace_mark dollar
pg_loop zero n s = s
pg_loop (suc fuel) n s = elim (replace_mark (dollar (n + 1)) s) [
  | none ↦ s
  | some t ↦ pg_loop fuel (n + 1) t
]

unfoldable pub pg_numbered : Text → Text
unfolding pg_loop
pg_numbered sql = pg_loop (suc (length sql)) 0 sql

-- `logic.to_uppercase() == "OR"`: no letter outside ASCII has these capitals.
unfoldable pub is_or : Text → Bool
is_or (o ∷ r ∷ []) = if o == b'O' || o == b'o' then r == b'R' || r == b'r' else false
is_or _ = false

abbrev pub connector : Bool → Text
connector true = codes " OR "
connector false = codes " AND "

unfoldable pub where_clause : Bool → QueryBuilder → Text
unfolding join
where_clause disjunction b =
    if is_nil b.conditions then [] else codes "WHERE " ++ join (connector disjunction) b.conditions

-- Two lines of a literal.
abbrev break : Text
break = 10 ∷ codes "             "

abbrev columns : Text
columns =
    codes
      "SELECT id, time::text as time, client_ip, client_name, question, qtype, answer, status, reason, upstream, elapsed_ns"

-- The text that `build` numbers.
unfoldable pub select_text : Text → Text
select_text clause =
    columns
    ++ (break
        ++ (codes "FROM query_log " ++ (clause ++ codes " ORDER BY time DESC LIMIT ? OFFSET ?")))

unfoldable pub build : QueryBuilder → Text → ℤ → ℤ → Text × List Value
unfolding where_clause select_text pg_numbered is_or
build b logic limit offset = (
  pg_numbered (select_text (where_clause (is_or logic) b)),
  b.bindings ++ int limit ∷ int offset ∷ [],
)

-- The query that counts, in `list_advanced` and `list_advanced_post`.
unfoldable pub count_sql : QueryBuilder → Text → Text
unfolding where_clause is_or
count_sql b logic = codes "SELECT COUNT(*) FROM query_log " ++ where_clause (is_or logic) b

-- The loop that binds: only texts and numbers are bound.
unfoldable pub bind_all : List Value → List Value
bind_all [] = []
bind_all (string s ∷ vs) = string s ∷ bind_all vs
bind_all (int n ∷ vs) = int n ∷ bind_all vs
bind_all (other_number n ∷ vs) = int (pos 0) ∷ bind_all vs
bind_all (null ∷ vs) = bind_all vs
bind_all (bool b ∷ vs) = bind_all vs
bind_all (array xs ∷ vs) = bind_all vs
bind_all (object o ∷ vs) = bind_all vs

-- A statement with the values bound to it.
pub record Statement : Type 0 where
  pub sql : Text
  pub bound : List Value

pub record AdvancedQueryBody : Type 0 where
  pub filters : List Filter
  pub logic : Text
  pub limit : ℤ
  pub offset : ℤ

unfoldable pub clamp_limit : ℤ → ℤ
clamp_limit n = if leb_ℤ n (pos 1) then pos 1 else if leb_ℤ (pos 1000) n then pos 1000 else n

module _ ⦃chrono : Chrono⦄ where
  -- The two statements of `list_advanced`, the counting one first.
  unfoldable pub list_advanced : List Filter → Text → ℤ → ℤ → AppResult (Statement × Statement)
  unfolding add_filters count_sql build bind_all clamp_limit
  list_advanced filters logic limit offset = add_filters new_builder filters >>= λ b.
      let (sql, bindings) = build b logic (clamp_limit limit) offset in
      ok (
        record { sql = count_sql b logic; bound = bind_all b.bindings },
        record { sql = sql; bound = bind_all bindings },
      )

  -- `list_advanced_post`, the same by a request with a body.
  unfoldable pub list_advanced_post : AdvancedQueryBody → AppResult (Statement × Statement)
  unfolding list_advanced
  list_advanced_post body = list_advanced body.filters body.logic body.limit body.offset

  abbrev metric_sql : Text → Text
  metric_sql metric =
      if text_eq metric (codes "sum_elapsed_ms")
      then codes "COALESCE(SUM(elapsed_ns), 0) as metric"
      else if text_eq metric (codes "avg_elapsed_ms")
      then codes "COALESCE(AVG(elapsed_ns), 0) as metric"
      else codes "COUNT(*) as metric"

  abbrev pub valid_fields : List Text
  valid_fields =
      codes "client_ip"
      ∷ codes "client_name"
      ∷ codes "question"
      ∷ codes "qtype"
      ∷ codes "status"
      ∷ codes "upstream"
      ∷ codes "reason"
      ∷ []

  -- `{:?}` of the fields.
  abbrev valid_fields_text : Text
  valid_fields_text =
      codes "[\"client_ip\", \"client_name\", \"question\", \"qtype\", \"status\", "
      ++ codes "\"upstream\", \"reason\"]"

  unfoldable pub check_group_by : List Text → AppResult (Unit {0})
  unfolding any text_eq
  check_group_by [] = ok tt
  check_group_by (field ∷ fields) =
      if any (text_eq field) valid_fields
      then check_group_by fields
      else err (
          validation (
            codes "Invalid group_by field: "
            ++ (field ++ (codes ". Valid fields: " ++ valid_fields_text))))

  unfoldable pub total_text : Text → Text → Text
  unfolding text_eq
  total_text metric clause =
      codes "SELECT " ++ (metric_sql metric ++ (codes " FROM query_log " ++ clause))

  unfoldable pub group_text : Text → Text → Text → Text
  unfolding text_eq
  group_text fields metric clause =
      codes "SELECT "
      ++ (fields
          ++ (codes ", "
              ++ (metric_sql metric
                  ++ (codes " FROM query_log "
                      ++ (clause
                          ++ (codes " GROUP BY "
                              ++ (fields ++ codes " ORDER BY metric DESC LIMIT ?")))))))

  -- `aggregate`: the conditions are joined by AND.
  unfoldable pub aggregate : List Filter → List Text → Text → ℤ → AppResult Statement
  unfolding add_filters where_clause bind_all check_group_by total_text group_text pg_numbered join
  aggregate filters group_by metric limit = add_filters new_builder filters >>= λ b.
      if is_nil group_by
      then ok
          (record { sql = total_text metric (where_clause false b); bound = bind_all b.bindings })
      else check_group_by group_by
        >> ok (record {
          sql = pg_numbered (group_text (join (codes ", ") group_by) metric (where_clause false b));
          bound = bind_all b.bindings ++ int limit ∷ [];
        })

  abbrev dimension_field : Text → Option Text
  dimension_field d =
      if text_eq d (codes "domain")
      then some (codes "question")
      else if text_eq d (codes "client")
      then some (codes "client_ip")
      else if text_eq d (codes "qtype")
      then some (codes "qtype")
      else if text_eq d (codes "upstream")
      then some (codes "upstream")
      else none

  abbrev line_break : Text
  line_break = 10 ∷ codes "         "

  unfoldable pub top_text : Text → Text
  top_text field =
      codes "SELECT "
      ++ (field
          ++ (codes " as value, COUNT(*) as count"
              ++ (line_break
                  ++ (codes "FROM query_log"
                      ++ (line_break
                          ++ (codes "WHERE time BETWEEN ? AND ?"
                              ++ (line_break
                                  ++ (codes "GROUP BY "
                                      ++ (field
                                          ++ (line_break
                                              ++ (codes "ORDER BY count DESC"
                                                  ++ (line_break ++ codes "LIMIT ?"))))))))))))

  unfoldable pub top : Text → Text → ℤ → AppResult Statement
  unfolding parse_relative_time text_eq top_text pg_numbered
  top dimension time_range limit = parse_relative_time time_range >>= λ range.
      elim (dimension_field dimension) [
        | none ↦ err (validation (codes "Invalid dimension: " ++ dimension))
        | some field ↦ ok (record {
          sql = pg_numbered (top_text field);
          bound = string range.0 ∷ string range.1 ∷ int limit ∷ [];
        })
      ]
