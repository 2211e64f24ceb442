-- ===== src/LogQuery.antt =====
-- src/api/handlers/query_log_advanced.rs: the filters of a log search as SQL conditions with
-- values bound to them, and the queries that are built of them.
pub mod Relative
pub mod Queries
pub mod Numbered
pub mod Marks
pub mod Shape
use rust_dns_backend.Base.{
  ℕ, zero, suc, ℤ, pos, negsuc, ◌+◌, ◌-◌, ◌*◌, ◌%◌, ◌^◌, Bool, true, false, ◌||◌, Option, none,
  some, List, [], ◌∷◌, ◌++◌, map, ltb, leb_ℤ, ◌==◌, if◌then◌else◌, is_nil, length,
}
use rust_dns_backend.Text.{Text, codes, text_eq, decimal}
use rust_dns_backend.Text.Split.{join}
use rust_dns_backend.Error.{AppResult, ok, err, validation, ok_or, ◌>>=◌}
use rust_dns_backend.Json.{
  Value, null, bool, int, other_number, string, array, object, to_vec, as_array, as_str, as_i64,
  str_or_empty,
}
use rust_dns_backend.LogQuery.Relative.{Chrono, parse_relative_time, mul_i64}

pub record Filter : Type 0 where
  pub field : Text
  pub operator : Text
  pub value : Value

-- A condition and the values bound in it.
abbrev pub Condition : Type 0
Condition = Text × List Value

pub record QueryBuilder : Type 0 where
  pub conditions : List Text
  pub bindings : List Value

abbrev pub new_builder : QueryBuilder
new_builder = record { conditions = []; bindings = [] }

-- The operators that some field takes; any other one is skipped.
pub data Operator : Type 0 where
  between gt lt gte lte relative like eq in_list unsupported : Operator

unfoldable pub operator_of : Text → Operator
unfolding text_eq
operator_of s =
    if text_eq s (codes "between")
    then between
    else if text_eq s (codes "gt")
    then gt
    else if text_eq s (codes "lt")
    then lt
    else if text_eq s (codes "gte")
    then gte
    else if text_eq s (codes "lte")
    then lte
    else if text_eq s (codes "relative")
    then relative
    else if text_eq s (codes "like")
    then like
    else if text_eq s (codes "eq")
    then eq
    else if text_eq s (codes "in")
    then in_list
    else unsupported

-- The fields, grouped by the arms of the match.
pub data Field : Type 0 where
  time pattern_field enum_field elapsed_ms elapsed_ns reason other_field : Field

unfoldable pub field_of : Text → Field
unfolding text_eq
field_of s =
    if text_eq s (codes "time")
    then time
    else if text_eq s (codes "question")
        || text_eq s (codes "answer")
        || text_eq s (codes "client_name")
        || text_eq s (codes "upstream")
    then pattern_field
    else if text_eq s (codes "status") || text_eq s (codes "qtype")
    then enum_field
    else if text_eq s (codes "elapsed_ms")
    then elapsed_ms
    else if text_eq s (codes "elapsed_ns")
    then elapsed_ns
    else if text_eq s (codes "reason")
    then reason
    else other_field

-- The SQL of a comparison.
unfoldable pub sql_op : Operator → Option Text
sql_op gt = some (codes ">")
sql_op lt = some (codes "<")
sql_op gte = some (codes ">=")
sql_op lte = some (codes "<=")
sql_op eq = some (codes "=")
sql_op _ = none

-- `{column} {op} ?`
unfoldable pub compared : Text → Text → Text
compared column op = column ++ (codes " " ++ (op ++ codes " ?"))

unfoldable pub time_between : List Value → AppResult (Option Condition)
time_between (a ∷ b ∷ []) = ok (some (codes "time BETWEEN ? AND ?", a ∷ b ∷ []))
time_between _ = err (validation (codes "time between requires exactly 2 values"))

unfoldable pub time_compared : Operator → Value → AppResult (Option Condition)
unfolding sql_op compared
time_compared eq v = ok none
time_compared op v = elim (sql_op op) [
  | none ↦ ok none
  | some o ↦ ok (some (compared (codes "time") o, v ∷ []))
]

module _ ⦃chrono : Chrono⦄ where
  unfoldable pub time_condition : Operator → Value → AppResult (Option Condition)
  unfolding time_between time_compared parse_relative_time
  time_condition between v = do
    arr ← ok_or (validation (codes "time between requires array")) (as_array v)
    time_between arr
  time_condition relative v = do
    duration ← ok_or (validation (codes "relative time is string")) (as_str v)
    range ← parse_relative_time duration
    ok (some (codes "time BETWEEN ? AND ?", string range.0 ∷ string range.1 ∷ []))
  time_condition op v = time_compared op v

-- `%{value}%`
unfoldable pub like_pattern : Value → Value
like_pattern v = string (codes "%" ++ (str_or_empty v ++ codes "%"))

unfoldable pub pattern_condition : Text → Operator → Value → AppResult (Option Condition)
unfolding like_pattern
pattern_condition field like v = ok (some (field ++ codes " LIKE ?", like_pattern v ∷ []))
pattern_condition field op v = ok none

-- `?,?,...,?`
unfoldable pub marks : ℕ → List Text
marks zero = []
marks (suc n) = codes "?" ∷ marks n

unfoldable pub placeholders : ℕ → Text
unfolding join marks
placeholders n = join (codes ",") (marks n)

unfoldable pub enum_condition : Text → Operator → Value → AppResult (Option Condition)
unfolding compared placeholders
enum_condition field eq v = ok (some (compared field (codes "="), v ∷ []))
enum_condition field in_list v = do
  arr ← ok_or (validation (codes "in operator requires array")) (as_array v)
  ok (some (field ++ (codes " IN (" ++ (placeholders (length arr) ++ codes ")")), arr))
enum_condition field op v = ok none

-- Milliseconds are multiplied in `i64`.
unfoldable pub elapsed_condition : ℕ → Text → Operator → Value → AppResult (Option Condition)
unfolding sql_op compared mul_i64
elapsed_condition factor message op v = elim (sql_op op) [
  | none ↦ ok none
  | some o ↦ ok_or (validation message) (as_i64 v) >>= λ n.
      ok (some (compared (codes "elapsed_ns") o, int (mul_i64 n factor) ∷ []))
]

unfoldable pub reason_condition : Operator → Value → AppResult (Option Condition)
unfolding compared like_pattern
reason_condition eq v =
    ok (some (compared (codes "reason") (codes "="), string (str_or_empty v) ∷ []))
reason_condition like v = ok (some (compared (codes "reason") (codes "LIKE"), like_pattern v ∷ []))
reason_condition op v = ok none

module _ ⦃chrono : Chrono⦄ where
  unfoldable pub condition_of : Text → Field → Operator → Value → AppResult (Option Condition)
  unfolding time_condition pattern_condition enum_condition elapsed_condition reason_condition
  condition_of field time op v = time_condition op v
  condition_of field pattern_field op v = pattern_condition field op v
  condition_of field enum_field op v = enum_condition field op v
  condition_of field elapsed_ms op v =
      elapsed_condition 1000000 (codes "elapsed_ms must be a number") op v
  condition_of field elapsed_ns op v =
      elapsed_condition 1 (codes "elapsed_ns must be a number") op v
  condition_of field reason op v = reason_condition op v
  condition_of field other_field op v = ok none

  abbrev pub push_condition : QueryBuilder → Option Condition → QueryBuilder
  push_condition b none = b
  push_condition b (some (condition, values)) = record b {
    conditions = b.conditions ++ condition ∷ [];
    bindings = b.bindings ++ values;
  }

  unfoldable pub add_filter : QueryBuilder → Filter → AppResult QueryBuilder
  unfolding condition_of field_of operator_of
  add_filter b f = do
    c ← condition_of f.field (field_of f.field) (operator_of f.operator) f.value
    ok (push_condition b c)

  unfoldable pub add_filters : QueryBuilder → List Filter → AppResult QueryBuilder
  unfolding add_filter
  add_filters b [] = ok b
  add_filters b (f ∷ fs) = add_filter b f >>= λ b'. add_filters b' fs
