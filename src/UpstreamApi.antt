-- ===== src/UpstreamApi.antt =====
-- src/api/handlers/upstreams.rs: the handlers that change the table `dns_upstreams`, and the pool that
-- is made of it again. Rows are as in Pool: the interval and the threshold are left out.
pub mod Recovered
use rust_dns_backend.Base.{
  ℤ, Bool, true, false, not, Option, none, some, List, [], ◌∷◌, ◌++◌, map, any, keep_if,
  if◌then◌else◌, is_nil,
}
use rust_dns_backend.Text.{Text, Unicode, codes, text_eq, trim}
use rust_dns_backend.Error.{AppError, AppResult, ok, err, validation, not_found, database, internal}
use rust_dns_backend.Resolver.Config.{ConfigCrate}
use rust_dns_backend.Pool.{Upstream, UpstreamPool, PoolEnv, sort_by_key}
use rust_dns_backend.Health.{find_row, set_status, status_of, reload_upstreams}

-- The table in the order of its rows, and the running pool.
pub record UpstreamState (R : Type 0) : Type 0 where
  pub rows : List Upstream
  pub pool : UpstreamPool R

-- The identifier that `uuid` makes, `serde_json::to_string` of a list of texts, and whether the write
-- and the read of the reload succeed.
pub record UpstreamEnv : Type 0 where
  pub uuid : Text
  pub to_json : List Text → Text
  pub write_ok : Bool
  pub reload_ok : Bool

pub record CreateUpstreamRequest : Type 0 where
  pub new_name : Text
  pub new_addresses : List Text
  pub new_priority : ℤ
  pub new_timeout : ℤ

pub record UpdateUpstreamRequest : Type 0 where
  pub name_update : Option Text
  pub addresses_update : Option (List Text)
  pub priority_update : Option ℤ
  pub active_update : Option Bool
  pub check_update : Option Bool
  pub failover_update : Option Bool
  pub timeout_update : Option ℤ

-- `unwrap_or`
abbrev pub or_stored {ℓ} : {A : Type ℓ} → Option A → A → A
or_stored none old = old
or_stored (some new) old = new

abbrev pub new_upstream : UpstreamEnv → CreateUpstreamRequest → Text → Upstream
new_upstream env body name = record {
  id = env.uuid;
  name = name;
  addresses = env.to_json body.new_addresses;
  priority = body.new_priority;
  is_active = true;
  health_check_enabled = true;
  failover_enabled = true;
  health_check_timeout = body.new_timeout;
  health_status = codes "unknown";
}

abbrev json_or_old : UpstreamEnv → Option (List Text) → Text → Text
json_or_old env none old = old
json_or_old env (some addresses) old = env.to_json addresses

abbrev pub updated_upstream : UpstreamEnv → UpdateUpstreamRequest → Upstream → Upstream
updated_upstream env body m = record m {
  name = or_stored body.name_update m.name;
  addresses = json_or_old env body.addresses_update m.addresses;
  priority = or_stored body.priority_update m.priority;
  is_active = or_stored body.active_update m.is_active;
  health_check_enabled = or_stored body.check_update m.health_check_enabled;
  failover_enabled = or_stored body.failover_update m.failover_enabled;
  health_check_timeout = or_stored body.timeout_update m.health_check_timeout;
}

unfoldable pub has_upstream_id : Text → Upstream → Bool
unfolding text_eq
has_upstream_id id m = text_eq m.id id

-- `UPDATE dns_upstreams SET .. WHERE id = $11`
unfoldable pub set_upstream : Text → Upstream → List Upstream → List Upstream
set_upstream id new rows = map (λ m. if has_upstream_id id m then new else m) rows

abbrev pub upstream_not_found : Text → AppError
upstream_not_found id = not_found (codes "Upstream " ++ (id ++ codes " not found"))

abbrev pub write_failed : AppError
write_failed = database (codes "statement failed")

module _ ⦃u : Unicode⦄ ⦃config : ConfigCrate⦄ {R : Type 0} (pool_env : PoolEnv R)
    (prefer_ipv4 : Bool) (strategy : Text) where
  -- A reload that fails is only logged.
  unfoldable pub write_upstreams : UpstreamEnv → List Upstream → UpstreamState R → UpstreamState R
  write_upstreams env rows s = record {
    rows = rows;
    pool = if env.reload_ok then reload_upstreams pool_env prefer_ipv4 strategy rows else s.pool;
  }

  unfoldable pub create_upstream :
      UpstreamEnv → CreateUpstreamRequest → UpstreamState R → UpstreamState R × AppResult Text
  create_upstream env body s =
      let name = trim body.new_name in
      if is_nil name
      then (s, err (validation (codes "Upstream name cannot be empty")))
      else if is_nil body.new_addresses
      then (s, err (validation (codes "At least one address is required")))
      else if not env.write_ok
      then (s, err write_failed)
      else (write_upstreams env (s.rows ++ new_upstream env body name ∷ []) s, ok env.uuid)

  unfoldable pub update_upstream :
      UpstreamEnv
      → Text
      → UpdateUpstreamRequest
      → UpstreamState R
      → UpstreamState R × AppResult Upstream
  update_upstream env id body s = elim (find_row id s.rows) [
    | none ↦ (s, err (upstream_not_found id))
    | some old ↦
        let new = updated_upstream env body old in
        if not env.write_ok
        then (s, err write_failed)
        else (write_upstreams env (set_upstream id new s.rows) s, ok new)
  ]

  unfoldable pub delete_upstream :
      UpstreamEnv → Text → UpstreamState R → UpstreamState R × AppResult (Unit {0})
  delete_upstream env id s =
      if not env.write_ok
      then (s, err write_failed)
      else if not (any (has_upstream_id id) s.rows)
      then (s, err (upstream_not_found id))
      else (write_upstreams env (keep_if (λ m. not (has_upstream_id id m)) s.rows) s, ok tt)

  -- `test`: `reached` is the outcome of `test_dns_connectivity` for the first address. The write of the
  -- status may fail, which is ignored; the pool is not made again. The result is the success.
  unfoldable pub test_upstream :
      UpstreamEnv → Text → (Text → Bool) → UpstreamState R → UpstreamState R × AppResult Bool
  test_upstream env id reached s = elim (find_row id s.rows) [
    | none ↦ (s, err (upstream_not_found id))
    | some m ↦ elim (pool_env.json_strings m.addresses) [
      | none ↦ (s, err (internal (codes "Invalid addresses format")))
      | some [] ↦ (s, ok false)
      | some (address ∷ addresses) ↦
          let rows = set_status id (status_of (reached address)) s.rows in
          ((if env.write_ok then record s { rows = rows } else s), ok (reached address))
    ]
  ]

-- `trigger_failover`
pub data Triggered : Type 0 where
  no_active_upstreams no_healthy_upstreams : Triggered
  switched_to : Text → Text → Triggered

unfoldable pub find_healthy : List Upstream → Option Upstream
unfolding text_eq
find_healthy [] = none
find_healthy (m ∷ ms) =
    if text_eq m.health_status (codes "healthy") then some m else find_healthy ms

unfoldable pub active_rows : List Upstream → List Upstream
unfolding keep_if sort_by_key
active_rows rows = sort_by_key (λ (m : Upstream). m.priority) (keep_if (λ m. m.is_active) rows)

-- It writes a row of the failover log, `log_ok`, and nothing else.
unfoldable pub trigger_failover : Bool → List Upstream → AppResult Triggered
unfolding active_rows find_healthy
trigger_failover log_ok rows =
    let found : AppResult Triggered = elim (find_healthy (active_rows rows)) [
      | none ↦ ok no_healthy_upstreams
      | some m ↦ if log_ok then ok (switched_to m.id m.name) else err write_failed
    ] in
    if is_nil (active_rows rows) then ok no_active_upstreams else found
