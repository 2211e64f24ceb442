-- ===== src/LogQuery/Marks.antt =====
-- src/api/handlers/query_log_advanced.rs, `add_filter` and `build`: as many marks as values.
use rust_dns_backend.Base.{
  ℕ, zero, suc, ◌+◌, ◌≡◌, refl, ap, ◌⊎◌, inl, inr, Bool, true, false, Option, none, some, List, [],
  ◌∷◌, ◌++◌, arith, length, length-append, is_nil, if◌then◌else◌,
}
use rust_dns_backend.Text.{Text, codes, text_eq}
use rust_dns_backend.Text.Laws.{text_eq→≡}
use rust_dns_backend.Text.Split.{join}
use rust_dns_backend.Error.{AppResult, ok, err, ok_or, ◌>>=◌, >>=-eq-ok, ok_inj}
use mathlib.Core.Path.{subst}
use rust_dns_backend.Json.{Value, as_array, as_str, as_i64}
use rust_dns_backend.LogQuery.{
  Filter, Condition, QueryBuilder, new_builder, Operator, between, gt, lt, gte, lte, relative, like,
  eq, in_list, operator_of, Field, time, pattern_field, enum_field, elapsed_ms, elapsed_ns, reason,
  other_field, field_of, sql_op, compared, time_between, time_compared, time_condition,
  pattern_condition, marks, placeholders, enum_condition, elapsed_condition, reason_condition,
  condition_of, push_condition, add_filter, add_filters,
}
use rust_dns_backend.LogQuery.Relative.{Chrono, parse_relative_time}
use rust_dns_backend.LogQuery.Queries.{connector, where_clause, is_or, count_sql}
use rust_dns_backend.LogQuery.Numbered.{count}

pub count-append : (c : ℕ) (s t : Text) → count c (s ++ t) ≡ count c s + count c t
unfolding count
count-append c [] t = omega arith
count-append c (x ∷ s) t = ground (arith, count-append c s t)

-- What a filter gives has a mark for each value.
abbrev Balanced : AppResult (Option Condition) → Type 0
Balanced (err e) = Unit
Balanced (ok none) = Unit
Balanced (ok (some (c, vs))) = count b'?' c ≡ length vs

bind-Balanced :
    {A : Type 0} (m : AppResult A) (f : A → AppResult (Option Condition))
    → ((a : A) → Balanced (f a))
    → Balanced (m >>= f)
bind-Balanced (ok a) f h = h a
bind-Balanced (err e) f h = tt

time_between-Balanced : (vs : List Value) → Balanced (time_between vs)
unfolding time_between count
time_between-Balanced [] = tt
time_between-Balanced (a ∷ []) = tt
time_between-Balanced (a ∷ b ∷ []) = refl
time_between-Balanced (a ∷ b ∷ c ∷ vs) = tt

time_compared-Balanced : (op : Operator) (v : Value) → Balanced (time_compared op v)
unfolding time_compared count compared sql_op
time_compared-Balanced gt v = refl
time_compared-Balanced lt v = refl
time_compared-Balanced gte v = refl
time_compared-Balanced lte v = refl
time_compared-Balanced _ v = tt

elapsed_condition-Balanced :
    (factor : ℕ) (message : Text) (op : Operator) (v : Value)
    → Balanced (elapsed_condition factor message op v)
unfolding elapsed_condition count compared sql_op
elapsed_condition-Balanced k m gt v = bind-Balanced (ok_or _ (as_i64 v)) _ (λ n. refl)
elapsed_condition-Balanced k m lt v = bind-Balanced (ok_or _ (as_i64 v)) _ (λ n. refl)
elapsed_condition-Balanced k m gte v = bind-Balanced (ok_or _ (as_i64 v)) _ (λ n. refl)
elapsed_condition-Balanced k m lte v = bind-Balanced (ok_or _ (as_i64 v)) _ (λ n. refl)
elapsed_condition-Balanced k m eq v = bind-Balanced (ok_or _ (as_i64 v)) _ (λ n. refl)
elapsed_condition-Balanced k m _ v = tt

reason_condition-Balanced : (op : Operator) (v : Value) → Balanced (reason_condition op v)
unfolding reason_condition count compared
reason_condition-Balanced eq v = refl
reason_condition-Balanced like v = refl
reason_condition-Balanced _ v = tt

count-placeholders : (n : ℕ) → count b'?' (placeholders n) ≡ n
unfolding placeholders marks join count
count-placeholders zero = refl
count-placeholders (suc zero) = refl
count-placeholders (suc (suc n)) = ap suc (count-placeholders (suc n))

module _ (field : Text) (clean : count b'?' field ≡ 0) where
  pattern_condition-Balanced : (op : Operator) (v : Value) → Balanced (pattern_condition field op v)
  unfolding pattern_condition count
  pattern_condition-Balanced like v = rw (count-append b'?' field (codes " LIKE ?"), clean)
  pattern_condition-Balanced _ v = tt

  in_condition-balanced :
      (vs : List Value)
      → count b'?' (field ++ (codes " IN (" ++ (placeholders (length vs) ++ codes ")"))) ≡ length vs
  unfolding count
  in_condition-balanced vs =
      rw
        (
          count-append b'?' field (codes " IN (" ++ (placeholders (length vs) ++ codes ")")),
          clean,
          count-append b'?' (placeholders (length vs)) (codes ")"),
          count-placeholders (length vs),
        )
        (omega arith)

  enum_condition-Balanced : (op : Operator) (v : Value) → Balanced (enum_condition field op v)
  unfolding enum_condition count compared
  enum_condition-Balanced eq v = rw (count-append b'?' field (codes " = ?"), clean)
  enum_condition-Balanced in_list v = bind-Balanced (ok_or _ (as_array v)) _ in_condition-balanced
  enum_condition-Balanced _ v = tt

module _ ⦃chrono : Chrono⦄ where
  time_condition-Balanced : (op : Operator) (v : Value) → Balanced (time_condition op v)
  unfolding time_condition count
  time_condition-Balanced between v = bind-Balanced (ok_or _ (as_array v)) _ time_between-Balanced
  time_condition-Balanced relative v =
      bind-Balanced (ok_or _ (as_str v)) _
        (λ d. bind-Balanced (parse_relative_time d) _ (λ r. refl))
  time_condition-Balanced op v = time_compared-Balanced op v

same_count : (s k : Text) → text_eq s k ≡ true → count b'?' s ≡ count b'?' k
same_count s k h = ap (count b'?') (text_eq→≡ s k h)

-- The columns that stand in a condition as the filter names them.
column_clean :
    (s : Text) → (field_of s ≡ pattern_field) ⊎ (field_of s ≡ enum_field) → count b'?' s ≡ 0
unfolding field_of count
column_clean s h = ground (
  arith,
  same_count s (codes "question"),
  same_count s (codes "answer"),
  same_count s (codes "client_name"),
  same_count s (codes "upstream"),
  same_count s (codes "status"),
  same_count s (codes "qtype"),
)

module _ ⦃chrono : Chrono⦄ where
  condition_of-Balanced :
      (field : Text) (kind : Field) (op : Operator) (v : Value)
      → field_of field ≡ kind
      → Balanced (condition_of field kind op v)
  unfolding condition_of
  condition_of-Balanced field time op v h = time_condition-Balanced op v
  condition_of-Balanced field pattern_field op v h =
      pattern_condition-Balanced field (column_clean field (inl h)) op v
  condition_of-Balanced field enum_field op v h =
      enum_condition-Balanced field (column_clean field (inr h)) op v
  condition_of-Balanced field elapsed_ms op v h = elapsed_condition-Balanced _ _ op v
  condition_of-Balanced field elapsed_ns op v h = elapsed_condition-Balanced _ _ op v
  condition_of-Balanced field reason op v h = reason_condition-Balanced op v
  condition_of-Balanced field other_field op v h = tt

-- The marks of all conditions.
unfoldable pub marks_in : List Text → ℕ
unfolding count
marks_in [] = 0
marks_in (c ∷ cs) = count b'?' c + marks_in cs

marks_in-append : (cs : List Text) (c : Text) → marks_in (cs ++ c ∷ []) ≡ marks_in cs + count b'?' c
unfolding marks_in
marks_in-append [] c = omega arith
marks_in-append (x ∷ cs) c = omega (arith, marks_in-append cs c)

pub IsBalanced : QueryBuilder → Type 0
IsBalanced b = marks_in b.conditions ≡ length b.bindings

push_condition-IsBalanced :
    ⦃chrono : Chrono⦄ (b : QueryBuilder) (c : Option Condition)
    → IsBalanced b
    → Balanced (ok c)
    → IsBalanced (push_condition b c)
unfolding IsBalanced
push_condition-IsBalanced b none h k = h
push_condition-IsBalanced b (some (c, vs)) h k =
    rw (marks_in-append b.conditions c, length-append b.bindings vs, h, k)

module _ ⦃chrono : Chrono⦄ where
  add_filter-IsBalanced :
      (b : QueryBuilder) (f : Filter) {b' : QueryBuilder}
      → IsBalanced b
      → add_filter b f ≡ ok b'
      → IsBalanced b'
  unfolding add_filter
  add_filter-IsBalanced b f {b'} h e =
      let (c, made, pushed) =
        >>=-eq-ok (condition_of f.field (field_of f.field) (operator_of f.operator) f.value)
          (λ c. ok (push_condition b c)) e in
      let fits : Balanced (ok c) =
        subst Balanced made (
          condition_of-Balanced f.field (field_of f.field) (operator_of f.operator) f.value refl) in
      subst IsBalanced (ok_inj pushed) (push_condition-IsBalanced b c h fits)

  pub add_filters-IsBalanced :
      (b : QueryBuilder) (fs : List Filter) {b' : QueryBuilder}
      → IsBalanced b
      → add_filters b fs ≡ ok b'
      → IsBalanced b'
  unfolding add_filters
  add_filters-IsBalanced b [] {b'} h e = subst IsBalanced (ok_inj e) h
  add_filters-IsBalanced b (f ∷ fs) h e =
      let (b1, first, others) = >>=-eq-ok (add_filter b f) (λ b'. add_filters b' fs) e in
      add_filters-IsBalanced b1 fs (add_filter-IsBalanced b f h first) others

count-connector : (d : Bool) → count b'?' (connector d) ≡ 0
unfolding count
count-connector true = refl
count-connector false = refl

count-join : (d : Bool) (cs : List Text) → count b'?' (join (connector d) cs) ≡ marks_in cs
unfolding join marks_in count
count-join d [] = refl
count-join d (c ∷ []) = omega arith
count-join d (c ∷ c' ∷ cs) =
    rw
      (
        count-append b'?' c (connector d ++ join (connector d) (c' ∷ cs)),
        count-append b'?' (connector d) (join (connector d) (c' ∷ cs)),
        count-connector d,
      )
      (omega (arith, count-join d (c' ∷ cs)))

pub count-where_clause :
    (d : Bool) (b : QueryBuilder) → count b'?' (where_clause d b) ≡ marks_in b.conditions
unfolding where_clause marks_in count
count-where_clause d b = clause b.conditions
  where
    clause :
        (cs : List Text)
        → count b'?' (if is_nil cs then [] else codes "WHERE " ++ join (connector d) cs)
          ≡ marks_in cs
    clause [] = refl
    clause (c ∷ cs) = count-join d (c ∷ cs)

-- The query that counts the rows keeps its question marks, as many as there are values to bind:
-- unlike the statement that fetches the rows, it is not numbered.
pub count_sql-marked :
    ⦃chrono : Chrono⦄ (fs : List Filter) {b : QueryBuilder} (logic : Text)
    → add_filters new_builder fs ≡ ok b
    → count b'?' (count_sql b logic) ≡ length b.bindings
unfolding count_sql count IsBalanced marks_in
count_sql-marked fs {b} logic h =
    let balanced = add_filters-IsBalanced new_builder fs refl h in
    omega (arith, count-where_clause (is_or logic) b, balanced)
