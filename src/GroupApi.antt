-- ===== src/GroupApi.antt =====
-- src/api/handlers/client_groups.rs: the handlers that change the members and the rules of a group, and
-- the cache of client configurations in `DnsHandler`. The statements of a transaction take effect when
-- it commits; those that stand outside one are taken to succeed.
pub mod Bindings
pub mod Fresh
use rust_dns_backend.Base.{
  ℕ, ℤ, pos, negsuc, ◌+◌, Bool, true, false, not, ◌&&◌, ◌||◌, Option, none, some, List, [], ◌∷◌,
  ◌++◌, ltb, any, keep_if, eq_ℤ, if◌then◌else◌,
}
use rust_dns_backend.Text.{Text, codes, text_eq, decimal}
use rust_dns_backend.Map.{Map, map_get, map_insert}
use rust_dns_backend.Error.{AppError, AppResult, ok, err, not_found, validation, database}

-- A row of `client_group_rules`.
pub record Binding : Type 0 where
  pub bound_group : ℤ
  pub rule_id : Text
  pub rule_type : Text
  pub bound_priority : ℤ

-- The ids of `client_groups`, `clients`, `custom_rules` and `dns_rewrites`, and the two tables that
-- stand between them.
pub record GroupTables : Type 0 where
  pub group_ids : List ℤ
  pub client_ids : List Text
  pub custom_ids : List Text
  pub rewrite_ids : List Text
  pub memberships : List (Text × ℤ)
  pub bindings : List Binding

-- The tables, and for each client address whose configuration the cache holds the tables that it was
-- read from.
pub record GroupState : Type 0 where
  pub tables : GroupTables
  pub cached : Map GroupTables

-- `{}` of an `i64`
unfoldable pub show_i64 : ℤ → Text
unfolding decimal
show_i64 (pos n) = decimal n
show_i64 (negsuc n) = b'-' ∷ decimal (n + 1)

unfoldable pub group_not_found : ℤ → AppError
unfolding show_i64
group_not_found id = not_found (codes "Client group " ++ (show_i64 id ++ codes " not found"))

unfoldable pub has_group : ℤ → GroupTables → Bool
unfolding any
has_group id t = any (eq_ℤ id) t.group_ids

-- A query from an address; where the cache has no configuration for it, the tables are read.
unfoldable pub look_up : Text → GroupState → GroupState
unfolding map_get map_insert
look_up client_ip s = elim (map_get client_ip s.cached) [
  | none ↦ record s { cached = map_insert client_ip s.tables s.cached }
  | some t ↦ s
]

-- `invalidate_all_client_cache`
abbrev pub invalidate_all : GroupState → GroupState
invalidate_all s = record s { cached = [] }

unfoldable pub is_membership : Text → ℤ → Text × ℤ → Bool
unfolding text_eq
is_membership client group m = text_eq m.0 client && eq_ℤ m.1 group

-- The loop of `batch_add_clients`: the rows, the count of the added, and the skipped clients.
unfoldable pub add_clients :
    List Text → ℤ → List Text → List (Text × ℤ) → ℕ → List Text → List (Text × ℤ) × ℕ × List Text
unfolding any text_eq is_membership
add_clients clients id [] rows added skipped = (rows, added, skipped)
add_clients clients id (c ∷ cs) rows added skipped =
    let skip = add_clients clients id cs rows added (skipped ++ c ∷ []) in
    let add = add_clients clients id cs (rows ++ (c, id) ∷ []) (added + 1) skipped in
    if not (any (text_eq c) clients)
    then skip
    else if any (is_membership c id) rows
    then skip
    else add

abbrev pub with_memberships : GroupState → List (Text × ℤ) → GroupState
with_memberships s rows = record s { tables = record s.tables { memberships = rows } }

abbrev pub with_bindings : GroupState → List Binding → GroupState
with_bindings s rows = record s { tables = record s.tables { bindings = rows } }

-- The cache is emptied when something has changed.
unfoldable pub invalidate_if : ℕ → GroupState → GroupState
invalidate_if count s = if ltb 0 count then invalidate_all s else s

unfoldable pub batch_add_clients :
    Bool → ℤ → List Text → GroupState → GroupState × AppResult (ℕ × List Text)
unfolding has_group group_not_found add_clients invalidate_if
batch_add_clients committed id clients s =
    let (rows, added, skipped) =
      add_clients s.tables.client_ids id clients s.tables.memberships 0 [] in
    if not (has_group id s.tables)
    then (s, err (group_not_found id))
    else if not committed
    then (s, err (database (codes "transaction failed")))
    else (invalidate_if added (with_memberships s rows), ok (added, skipped))

-- The loop of `batch_remove_clients`.
unfoldable pub remove_clients : ℤ → List Text → List (Text × ℤ) → ℕ → List (Text × ℤ) × ℕ
unfolding any keep_if is_membership
remove_clients id [] rows removed = (rows, removed)
remove_clients id (c ∷ cs) rows removed =
    let missing = remove_clients id cs rows removed in
    let found =
      remove_clients id cs (keep_if (λ m. not (is_membership c id m)) rows) (removed + 1) in
    if any (is_membership c id) rows then found else missing

unfoldable pub batch_remove_clients : Bool → ℤ → List Text → GroupState → GroupState × AppResult ℕ
unfolding has_group group_not_found remove_clients invalidate_if
batch_remove_clients committed id clients s =
    let (rows, removed) = remove_clients id clients s.tables.memberships 0 in
    if not (has_group id s.tables)
    then (s, err (group_not_found id))
    else if not committed
    then (s, err (database (codes "transaction failed")))
    else (invalidate_if removed (with_memberships s rows), ok removed)

unfoldable pub leave_group : Text → Option ℤ → List (Text × ℤ) → List (Text × ℤ)
unfolding keep_if is_membership
leave_group client none rows = rows
leave_group client (some from) rows = keep_if (λ m. not (is_membership client from m)) rows

-- `ON CONFLICT (client_id, group_id) DO UPDATE`, which changes no more than the time.
unfoldable pub enter_group : Text → ℤ → List (Text × ℤ) → List (Text × ℤ)
unfolding any is_membership
enter_group client to rows =
    if any (is_membership client to) rows then rows else rows ++ (client, to) ∷ []

-- The loop of `batch_move_clients`.
unfoldable pub move_clients :
    GroupTables → Option ℤ → Option ℤ → List Text → List (Text × ℤ) → ℕ → List (Text × ℤ) × ℕ
unfolding any text_eq leave_group enter_group has_group
move_clients t from to [] rows moved = (rows, moved)
move_clients t from none (c ∷ cs) rows moved =
    let stay = move_clients t from none cs rows moved in
    let left = move_clients t from none cs (leave_group c from rows) moved in
    if any (text_eq c) t.client_ids then left else stay
move_clients t from (some to) (c ∷ cs) rows moved =
    let stay = move_clients t from (some to) cs rows moved in
    let left = leave_group c from rows in
    let entered = move_clients t from (some to) cs (enter_group c to left) (moved + 1) in
    let refused = move_clients t from (some to) cs left moved in
    if not (any (text_eq c) t.client_ids) then stay else if has_group to t then entered else refused

-- The cache of `DnsHandler` is left as it is.
unfoldable pub batch_move_clients :
    Option ℤ → Option ℤ → List Text → GroupState → GroupState × AppResult ℕ
unfolding move_clients
batch_move_clients from to clients s =
    let (rows, moved) = move_clients s.tables from to clients s.tables.memberships 0 in
    (with_memberships s rows, ok moved)

-- The cache is emptied before the transaction.
unfoldable pub delete_group : Bool → ℤ → GroupState → GroupState × AppResult (Unit {0})
unfolding has_group group_not_found keep_if
delete_group committed id s =
    let t = s.tables in
    let t' = record t {
      group_ids = keep_if (λ g. not (eq_ℤ g id)) t.group_ids;
      memberships = keep_if (λ (m : Text × ℤ). not (eq_ℤ m.1 id)) t.memberships;
      bindings = keep_if (λ (b : Binding). not (eq_ℤ b.bound_group id)) t.bindings;
    } in
    if not (has_group id t)
    then (s, err (group_not_found id))
    else if not committed
    then (invalidate_all s, err (database (codes "transaction failed")))
    else (invalidate_all (record s { tables = t' }), ok tt)
