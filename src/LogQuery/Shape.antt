-- ===== src/LogQuery/Shape.antt =====
-- src/api/handlers/query_log_advanced.rs: what a filter's value decides of the SQL.
use rust_dns_backend.Base.{
  ℕ, ◌≡◌, refl, ap, ◌∙◌, sym, Option, none, some, List, [], ◌∷◌, map, ◌++◌, length, ℤ,
}
use rust_dns_backend.Text.{Text, codes}
use rust_dns_backend.Error.{AppResult, ok, err, ok_or, ◌>>=◌, >>=-eq-ok, ok_inj}
use rust_dns_backend.Json.{Value, array, to_vec, as_array, as_str, as_i64}
use rust_dns_backend.LogQuery.{
  Filter, Condition, QueryBuilder, new_builder, Operator, between, gt, lt, gte, lte, relative, like,
  eq, in_list, operator_of, Field, time, pattern_field, enum_field, elapsed_ms, elapsed_ns, reason,
  field_of, sql_op, compared, time_between, time_compared, time_condition, pattern_condition,
  placeholders, enum_condition, elapsed_condition, reason_condition, condition_of, push_condition,
  add_filter, add_filters,
}
use rust_dns_backend.LogQuery.Relative.{Chrono, parse_relative_time}
use mathlib.Core.Path.{subst}
use rust_dns_backend.LogQuery.Queries.{build, where_clause, count_sql}

-- How many values a list has.
unfoldable pub value_count : Value → ℕ
value_count (array vs) = length (to_vec vs)
value_count _ = 0

-- The conditions as the SQL alone determines them: no value is given.
abbrev compared_if : Text → Option Text → Option Text
compared_if column none = none
compared_if column (some o) = some (compared column o)

unfoldable pub condition_text : Text → Field → Operator → ℕ → Option Text
unfolding compared sql_op placeholders
condition_text field time between n = some (codes "time BETWEEN ? AND ?")
condition_text field time relative n = some (codes "time BETWEEN ? AND ?")
condition_text field time eq n = none
condition_text field time op n = compared_if (codes "time") (sql_op op)
condition_text field pattern_field like n = some (field ++ codes " LIKE ?")
condition_text field enum_field eq n = some (compared field (codes "="))
condition_text field enum_field in_list n =
    some (field ++ (codes " IN (" ++ (placeholders n ++ codes ")")))
condition_text field elapsed_ms op n = compared_if (codes "elapsed_ns") (sql_op op)
condition_text field elapsed_ns op n = compared_if (codes "elapsed_ns") (sql_op op)
condition_text field reason eq n = some (compared (codes "reason") (codes "="))
condition_text field reason like n = some (compared (codes "reason") (codes "LIKE"))
condition_text field kind op n = none

abbrev push_text : List Text → Option Text → List Text
push_text cs none = cs
push_text cs (some c) = cs ++ c ∷ []

unfoldable pub condition_texts : List Text → List (Text × Text × ℕ) → List Text
unfolding condition_text field_of operator_of
condition_texts cs [] = cs
condition_texts cs ((field, operator, n) ∷ shapes) =
    condition_texts (push_text cs (condition_text field (field_of field) (operator_of operator) n))
      shapes

-- What is left of a filter without its value.
abbrev pub shape_of : Filter → Text × Text × ℕ
shape_of f = (f.field, f.operator, value_count f.value)

-- The outcome is an error, or has this text.
abbrev Has : Option Text → AppResult (Option Condition) → Type 0
Has t (err e) = Unit
Has t (ok none) = t ≡ none
Has t (ok (some (c, vs))) = t ≡ some c

bind-Has :
    {A : Type 0} (t : Option Text) (m : AppResult A) (f : A → AppResult (Option Condition))
    → ((a : A) → Has t (f a))
    → Has t (m >>= f)
bind-Has t (ok a) f h = h a
bind-Has t (err e) f h = tt

time_between-Has : (vs : List Value) → Has (some (codes "time BETWEEN ? AND ?")) (time_between vs)
unfolding time_between
time_between-Has [] = tt
time_between-Has (a ∷ []) = tt
time_between-Has (a ∷ b ∷ []) = refl
time_between-Has (a ∷ b ∷ c ∷ vs) = tt

elapsed_condition-Has :
    (factor : ℕ) (message : Text) (op : Operator) (v : Value)
    → Has (compared_if (codes "elapsed_ns") (sql_op op)) (elapsed_condition factor message op v)
unfolding elapsed_condition sql_op
elapsed_condition-Has k m gt v = bind-Has _ (ok_or _ (as_i64 v)) _ (λ n. refl)
elapsed_condition-Has k m lt v = bind-Has _ (ok_or _ (as_i64 v)) _ (λ n. refl)
elapsed_condition-Has k m gte v = bind-Has _ (ok_or _ (as_i64 v)) _ (λ n. refl)
elapsed_condition-Has k m lte v = bind-Has _ (ok_or _ (as_i64 v)) _ (λ n. refl)
elapsed_condition-Has k m eq v = bind-Has _ (ok_or _ (as_i64 v)) _ (λ n. refl)
elapsed_condition-Has k m _ v = refl

in_list-Has :
    (field : Text) (v : Value)
    → Has (condition_text field enum_field in_list (value_count v)) (enum_condition field in_list v)
unfolding condition_text enum_condition value_count
in_list-Has field (array vs) = refl
in_list-Has field _ = tt

enum_condition-Has :
    (field : Text) (op : Operator) (v : Value)
    → Has (condition_text field enum_field op (value_count v)) (enum_condition field op v)
unfolding condition_text enum_condition
enum_condition-Has field eq v = refl
enum_condition-Has field in_list v = in_list-Has field v
enum_condition-Has field _ v = refl

module _ ⦃chrono : Chrono⦄ where
  time_condition-Has :
      (field : Text) (op : Operator) (v : Value) (n : ℕ)
      → Has (condition_text field time op n) (time_condition op v)
  unfolding condition_text time_condition time_compared sql_op
  time_condition-Has field between v n = bind-Has _ (ok_or _ (as_array v)) _ time_between-Has
  time_condition-Has field relative v n =
      bind-Has _ (ok_or _ (as_str v)) _
        (λ d. bind-Has (some (codes "time BETWEEN ? AND ?")) (parse_relative_time d) _ (λ r. refl))
  time_condition-Has field _ v n = refl

  condition_of-Has :
      (field : Text) (kind : Field) (op : Operator) (v : Value)
      → Has (condition_text field kind op (value_count v)) (condition_of field kind op v)
  unfolding condition_text condition_of pattern_condition reason_condition
  condition_of-Has field time op v = time_condition-Has field op v (value_count v)
  condition_of-Has field enum_field op v = enum_condition-Has field op v
  condition_of-Has field elapsed_ms op v = elapsed_condition-Has _ _ op v
  condition_of-Has field elapsed_ns op v = elapsed_condition-Has _ _ op v
  condition_of-Has field pattern_field like v = refl
  condition_of-Has field reason eq v = refl
  condition_of-Has field reason like v = refl
  condition_of-Has field _ _ v = refl

  push_condition-push_text :
      (b : QueryBuilder) (t : Option Text) (c : Option Condition)
      → Has t (ok c)
      → (push_condition b c).conditions ≡ push_text b.conditions t
  push_condition-push_text b t none h = rw h
  push_condition-push_text b t (some (c, vs)) h = rw h

  add_filters-condition_texts :
      (b : QueryBuilder) (fs : List Filter) {b' : QueryBuilder}
      → add_filters b fs ≡ ok b'
      → b'.conditions ≡ condition_texts b.conditions (map shape_of fs)
  unfolding add_filters condition_texts add_filter
  add_filters-condition_texts b [] h = cc
  add_filters-condition_texts b (f ∷ fs) {b'} h =
      let kind = field_of f.field in
      let op = operator_of f.operator in
      let (b1, first, others) = >>=-eq-ok (add_filter b f) (λ b'. add_filters b' fs) h in
      let (c, made, pushed) =
        >>=-eq-ok (condition_of f.field kind op f.value) (λ c. ok (push_condition b c)) first in
      let t = condition_text f.field kind op (value_count f.value) in
      let has : Has t (ok c) = subst (Has t) made (condition_of-Has f.field kind op f.value) in
      let next : b1.conditions ≡ push_text b.conditions t =
        ap (λ (q : QueryBuilder). q.conditions) (sym (ok_inj pushed))
        ∙ push_condition-push_text b t c has in
      add_filters-condition_texts b1 fs others
      ∙ ap (λ (cs : List Text). condition_texts cs (map shape_of fs)) next

  -- The conditions are those of the shapes.
  add_filters_lem :
      (fs : List Filter) {b : QueryBuilder}
      → add_filters new_builder fs ≡ ok b
      → b.conditions ≡ condition_texts [] (map shape_of fs)
  add_filters_lem fs h = add_filters-condition_texts new_builder fs h

  -- Two log searches with the same connector and the same fields, operators and lengths of lists run
  -- the same two statements, the one that gives the rows and the one that counts them, whatever values
  -- their filters, limits and offsets hold: none of these values gets into the text.
  pub build-shape_of :
      (fs gs : List Filter) {b c : QueryBuilder} (logic : Text) (limit limit' offset offset' : ℤ)
      → add_filters new_builder fs ≡ ok b
      → add_filters new_builder gs ≡ ok c
      → map shape_of fs ≡ map shape_of gs
      → ((build b logic limit offset).0 ≡ (build c logic limit' offset').0)
        × (count_sql b logic ≡ count_sql c logic)
  unfolding build where_clause count_sql
  build-shape_of fs gs {b} {c} logic limit limit' offset offset' h k e =
      let same : b.conditions ≡ c.conditions =
        add_filters_lem fs h ∙ (ap (condition_texts []) e ∙ sym (add_filters_lem gs k)) in
      (rw same, rw same)
