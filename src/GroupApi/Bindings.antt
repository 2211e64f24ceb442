-- ===== src/GroupApi/Bindings.antt =====
-- src/api/handlers/client_groups.rs: the rules of a group.
use rust_dns_backend.Base.{
  ℕ, ℤ, pos, ◌+◌, Bool, not, ◌&&◌, ◌||◌, Option, none, some, List, [], ◌∷◌, ◌++◌, any, keep_if,
  eq_ℤ, if◌then◌else◌,
}
use rust_dns_backend.Text.{Text, codes, text_eq}
use rust_dns_backend.Error.{AppResult, ok, err, validation}
use rust_dns_backend.GroupApi.{
  Binding, GroupTables, GroupState, has_group, group_not_found, with_bindings, invalidate_if,
}

pub record BindRuleRequest : Type 0 where
  pub wanted_id : Text
  pub wanted_type : Text
  pub wanted_priority : Option ℤ

unfoldable pub is_rule_type : Text → Bool
unfolding text_eq
is_rule_type s = text_eq s (codes "custom_rule") || text_eq s (codes "rewrite")

unfoldable pub rule_exists : GroupTables → BindRuleRequest → Bool
unfolding any text_eq
rule_exists t r =
    if text_eq r.wanted_type (codes "custom_rule")
    then any (text_eq r.wanted_id) t.custom_ids
    else any (text_eq r.wanted_id) t.rewrite_ids

unfoldable pub is_binding : ℤ → Text → Text → Binding → Bool
unfolding text_eq
is_binding group id type b =
    eq_ℤ b.bound_group group && text_eq b.rule_id id && text_eq b.rule_type type

abbrev pub priority_or_zero : Option ℤ → ℤ
priority_or_zero none = pos 0
priority_or_zero (some p) = p

abbrev pub new_binding : ℤ → BindRuleRequest → Binding
new_binding id r = record {
  bound_group = id;
  rule_id = r.wanted_id;
  rule_type = r.wanted_type;
  bound_priority = priority_or_zero r.wanted_priority;
}

-- The loop of `batch_bind_rules`, which has no transaction: the rows, the counts of bound and skipped
-- rules, and the type that ended it.
unfoldable pub bind_rules :
    GroupTables
    → ℤ
    → List BindRuleRequest
    → List Binding
    → ℕ
    → ℕ
    → List Binding × ℕ × ℕ × Option Text
unfolding is_rule_type rule_exists is_binding any
bind_rules t id [] rows bound skipped = (rows, bound, skipped, none)
bind_rules t id (r ∷ rs) rows bound skipped =
    let skip = bind_rules t id rs rows bound (skipped + 1) in
    let bind = bind_rules t id rs (rows ++ new_binding id r ∷ []) (bound + 1) skipped in
    if not (is_rule_type r.wanted_type)
    then (rows, bound, skipped, some r.wanted_type)
    else if not (rule_exists t r)
    then skip
    else if any (is_binding id r.wanted_id r.wanted_type) rows
    then skip
    else bind

unfoldable pub batch_bind_rules :
    ℤ → List BindRuleRequest → GroupState → GroupState × AppResult (ℕ × ℕ)
unfolding has_group group_not_found bind_rules invalidate_if
batch_bind_rules id rules s =
    let (rows, bound, skipped, wrong) = bind_rules s.tables id rules s.tables.bindings 0 0 in
    let outcome : GroupState × AppResult (ℕ × ℕ) = elim wrong [
      | some type ↦ (
        with_bindings s rows,
        err (
            validation (
              codes "Invalid rule type: "
              ++ (type ++ codes " (must be 'custom_rule' or 'rewrite')"))),
      )
      | none ↦ (invalidate_if bound (with_bindings s rows), ok (bound, skipped))
    ] in
    if not (has_group id s.tables) then (s, err (group_not_found id)) else outcome

-- The loop of `batch_unbind_rules`.
unfoldable pub unbind_rules : ℤ → Text → List Text → List Binding → ℕ → List Binding × ℕ
unfolding any keep_if is_binding
unbind_rules id type [] rows unbound = (rows, unbound)
unbind_rules id type (r ∷ rs) rows unbound =
    let missing = unbind_rules id type rs rows unbound in
    let found =
      unbind_rules id type rs (keep_if (λ b. not (is_binding id r type b)) rows) (unbound + 1) in
    if any (is_binding id r type) rows then found else missing

unfoldable pub batch_unbind_rules :
    ℤ → Option Text → List Text → GroupState → GroupState × AppResult ℕ
unfolding has_group group_not_found unbind_rules invalidate_if
batch_unbind_rules id rule_type rules s =
    let type : Text = elim rule_type [ none ↦ codes "filter" | some t ↦ t ] in
    let (rows, unbound) = unbind_rules id type rules s.tables.bindings 0 in
    if not (has_group id s.tables)
    then (s, err (group_not_found id))
    else (invalidate_if unbound (with_bindings s rows), ok unbound)
