-- ===== src/RuleApi.antt =====
-- src/api/handlers/rules.rs: the handlers that change the table `custom_rules`, and the rules that the
-- filter engine has loaded. `RuleApi/Export` and `RuleApi/Import` are the two formats of files.
pub mod Export
pub mod Import
pub mod InSync
pub mod Protected
pub mod Csv
pub mod Exported
pub mod Imported
use rust_dns_backend.Base.{
  ℕ, zero, suc, ◌+◌, ◌-◌, ◌*◌, Bool, true, false, not, ◌&&◌, ◌||◌, Option, none, some, List, [],
  ◌∷◌, ◌++◌, map, ltb, ◌==◌, if◌then◌else◌, is_nil, any, keep_if, length, min, max,
}
use rust_dns_backend.Text.{Text, Unicode, codes, text_eq, starts_with, trim}
use rust_dns_backend.Error.{
  AppError, AppResult, ok, err, database, unauthorized, not_found, validation, internal,
}

-- A row of `custom_rules`.
pub record CustomRow : Type 0 where
  pub id : Text
  pub rule : Text
  pub comment : Option Text
  pub is_enabled : Bool
  pub created_by : Text
  pub created_at : Text
  pub expires_at : Option Text

-- What the filter engine reads of a row.
abbrev pub EngineRule : Type 0
EngineRule = Text × Bool × Option Text

abbrev pub engine_rule : CustomRow → EngineRule
engine_rule r = (r.rule, r.is_enabled, r.expires_at)

-- The table, and the rows as the filter engine has last loaded them.
pub record RulesState : Type 0 where
  pub rows : List CustomRow
  pub loaded : List EngineRule

-- The inputs of a request: the user, the identifier that `uuid` makes, the time, and whether the
-- statement that writes and the reload succeed.
pub record RequestEnv : Type 0 where
  pub username : Text
  pub uuid : Text
  pub now : Text
  pub write_ok : Bool
  pub reload_ok : Bool

-- `created_by LIKE 'filter:%'`
unfoldable pub is_imported : CustomRow → Bool
unfolding starts_with
is_imported r = starts_with (codes "filter:") r.created_by

abbrev db_error : AppError
db_error = database (codes "statement failed")

-- `filter.reload()` behind a write.
unfoldable pub reload_after :
    {A : Type 0} → RequestEnv → List CustomRow → RulesState → A → RulesState × AppResult A
reload_after env rows s a =
    if env.reload_ok
    then (record { rows = rows; loaded = map engine_rule rows }, ok a)
    else (record s { rows = rows }, err (internal (codes "reload failed")))

pub record CreateRuleRequest : Type 0 where
  pub new_rule : Text
  pub new_comment : Option Text
  pub new_expires_at : Option Text

abbrev pub new_row : RequestEnv → Text → CreateRuleRequest → CustomRow
new_row env rule body = record {
  id = env.uuid;
  rule = rule;
  comment = body.new_comment;
  is_enabled = true;
  created_by = env.username;
  created_at = env.now;
  expires_at = body.new_expires_at;
}

module _ ⦃u : Unicode⦄ where
  unfoldable pub create_rule :
      RequestEnv → CreateRuleRequest → RulesState → RulesState × AppResult Text
  unfolding trim reload_after
  create_rule env body s =
      let rule = trim body.new_rule in
      if is_nil rule
      then (s, err (validation (codes "Rule cannot be empty")))
      else if not env.write_ok
      then (s, err db_error)
      else reload_after env (s.rows ++ new_row env rule body ∷ []) s env.uuid

abbrev pub has_id : Text → CustomRow → Bool
has_id id r = text_eq r.id id

unfoldable pub rule_not_found : Text → AppError
rule_not_found id = not_found (codes "Rule " ++ (id ++ codes " not found"))

unfoldable pub delete_rule : RequestEnv → Text → RulesState → RulesState × AppResult (Unit {0})
unfolding any keep_if text_eq reload_after rule_not_found
delete_rule env id s =
    if not env.write_ok
    then (s, err db_error)
    else if not (any (has_id id) s.rows)
    then (s, err (rule_not_found id))
    else reload_after env (keep_if (λ r. not (has_id id r)) s.rows) s tt

-- The rows that `WHERE id IN (..) AND created_by NOT LIKE 'filter:%'` selects.
unfoldable pub is_selected : List Text → CustomRow → Bool
unfolding any text_eq is_imported
is_selected ids r = any (text_eq r.id) ids && not (is_imported r)

abbrev pub with_enabled : Bool → CustomRow → CustomRow
with_enabled b r = record r { is_enabled = b }

-- `UPDATE .. SET is_enabled = b WHERE ..`
unfoldable pub set_enabled : (CustomRow → Bool) → Bool → List CustomRow → List CustomRow
set_enabled p b rows = map (λ r. if p r then with_enabled b r else r) rows

unfoldable pub bulk_rows : List Text → Text → List CustomRow → Option (List CustomRow)
unfolding text_eq set_enabled keep_if is_selected
bulk_rows ids action rows =
    if text_eq action (codes "enable")
    then some (set_enabled (is_selected ids) true rows)
    else if text_eq action (codes "disable")
    then some (set_enabled (is_selected ids) false rows)
    else if text_eq action (codes "delete")
    then some (keep_if (λ r. not (is_selected ids r)) rows)
    else none

-- The number of rows affected is the result.
unfoldable pub bulk_action : RequestEnv → List Text → Text → RulesState → RulesState × AppResult ℕ
unfolding bulk_rows keep_if is_selected reload_after
bulk_action env ids action s =
    let affected = length (keep_if (is_selected ids) s.rows) in
    let changed : RulesState × AppResult ℕ = elim (bulk_rows ids action s.rows) [
      | none ↦ (s, err (validation (codes "action must be enable, disable, or delete")))
      | some rows ↦ if env.write_ok then reload_after env rows s affected else (s, err db_error)
    ] in
    if is_nil ids then (s, ok 0) else changed

-- A field that is missing stays; the time of expiry may be set to NULL.
pub record UpdateRuleRequest : Type 0 where
  pub rule_update : Option Text
  pub comment_update : Option Text
  pub enabled_update : Option Bool
  pub expires_update : Option (Option Text)

abbrev pub is_some {ℓ} : {A : Type ℓ} → Option A → Bool
is_some none = false
is_some (some a) = true

abbrev pub or_old {ℓ} : {A : Type ℓ} → Option A → A → A
or_old none a = a
or_old (some b) a = b

abbrev or_old_comment : Option Text → Option Text → Option Text
or_old_comment none c = c
or_old_comment (some d) c = some d

unfoldable pub find_row : Text → List CustomRow → Option CustomRow
unfolding text_eq
find_row id [] = none
find_row id (r ∷ rows) = if has_id id r then some r else find_row id rows

abbrev pub flips : Option Bool → Bool → Bool
flips none b = false
flips (some true) b = not b
flips (some false) b = b

module _ ⦃u : Unicode⦄ where
  abbrev trimmed : Option Text → Option Text
  trimmed none = none
  trimmed (some s) = some (trim s)

  unfoldable pub updated_row : UpdateRuleRequest → CustomRow → CustomRow
  unfolding trim
  updated_row body r = record r {
    rule = or_old (trimmed body.rule_update) r.rule;
    comment = or_old_comment body.comment_update r.comment;
    is_enabled = or_old body.enabled_update r.is_enabled;
    expires_at = or_old body.expires_update r.expires_at;
  }

  abbrev is_blank : Option Text → Bool
  is_blank none = false
  is_blank (some s) = is_nil (trim s)

  unfoldable pub update_rule :
      RequestEnv → Text → UpdateRuleRequest → RulesState → RulesState × AppResult Bool
  unfolding find_row is_imported trim updated_row reload_after rule_not_found text_eq
  update_rule env id body s = elim (find_row id s.rows) [
    | none ↦ (s, err (rule_not_found id))
    | some old ↦
        let rows = map (λ r. if has_id id r then updated_row body r else r) s.rows in
        let needs_reload =
          flips body.enabled_update old.is_enabled || is_some body.expires_update in
        if is_imported old
        then (s, err (unauthorized (codes "Cannot edit rules imported from filter lists")))
        else if is_blank body.rule_update
        then (s, err (validation (codes "Rule cannot be empty")))
        else if not (
            is_some body.rule_update
            || is_some body.comment_update
            || is_some body.enabled_update
            || is_some body.expires_update)
        then (s, ok false)
        else if not env.write_ok
        then (s, err db_error)
        else if needs_reload || is_some body.rule_update
        then reload_after env rows s true
        else (record s { rows = rows }, ok true)
  ]

unfoldable pub toggle_not_found : Text → AppError
toggle_not_found id =
    not_found (codes "Rule " ++ (id ++ codes " not found or is a filter list rule"))

unfoldable pub toggle_rule : RequestEnv → Text → Bool → RulesState → RulesState × AppResult Bool
unfolding any text_eq is_imported set_enabled reload_after toggle_not_found
toggle_rule env id enabled s =
    let selected = λ (r : CustomRow). has_id id r && not (is_imported r) in
    if not env.write_ok
    then (s, err db_error)
    else if not (any selected s.rows)
    then (s, err (toggle_not_found id))
    else reload_after env (set_enabled selected enabled s.rows) s enabled

-- The page of `list`: LIMIT and OFFSET, of `u32` parameters.
unfoldable pub page_of : Option ℕ → Option ℕ → ℕ × ℕ
page_of page per_page =
    let limit = min (or_old per_page 50) 200 in (limit, (max (or_old page 1) 1 - 1) * limit)
