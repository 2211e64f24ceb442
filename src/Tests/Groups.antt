-- ===== src/Tests/Groups.antt =====
-- src/api/handlers/upstreams.rs and client_groups.rs at fixed inputs.
use rust_dns_backend.Base.{
  ◌≡◌, refl, true, false, none, some, List, [], ◌∷◌, map, pos, ℕ, ◌≢◌, In, length, ℤ,
}
use rust_dns_backend.Text.{Text, codes, text_eq}
use rust_dns_backend.Error.{ok}
use rust_dns_backend.Pool.{Upstream, UpstreamNode, PoolEnv, priority_first}
use rust_dns_backend.Health.{find_row, set_status}
use rust_dns_backend.UpstreamApi.{
  UpstreamState, UpstreamEnv, UpdateUpstreamRequest, test_upstream, update_upstream,
  trigger_failover, switched_to,
}
use rust_dns_backend.UpstreamApi.Recovered.{test_upstream-update_upstream}
use rust_dns_backend.GroupApi.{GroupTables, GroupState, batch_add_clients, batch_move_clients}
use rust_dns_backend.GroupApi.Bindings.{BindRuleRequest, batch_bind_rules}
use rust_dns_backend.GroupApi.Fresh.{add, IsFresh, serve-IsFresh}
use rust_dns_backend.GroupApi.Fresh as GroupFresh
use rust_dns_backend.Tests.Fixtures.{differ, configs, ascii, literal_regex}

abbrev pool_env : PoolEnv ℕ
pool_env = record {
  json_strings = λ s. some (s ∷ []);
  lookup_host = λ host. none;
  connect = λ servers. 0;
}

abbrev upstream : Text → Text → Upstream
upstream id status = record {
  id = id;
  name = id;
  addresses = codes "9.9.9.9";
  priority = pos 1;
  is_active = true;
  health_check_enabled = true;
  failover_enabled = true;
  health_check_timeout = pos 5;
  health_status = status;
}

abbrev lost_upstream : Upstream
lost_upstream = upstream (codes "lost") (codes "degraded")

abbrev other_upstream : Upstream
other_upstream = upstream (codes "other") (codes "healthy")

abbrev upstreams_state : UpstreamState ℕ
upstreams_state = record {
  rows = lost_upstream ∷ other_upstream ∷ [];
  pool = record { nodes = []; strategy = priority_first };
}

abbrev upstream_env : UpstreamEnv
upstream_env = record {
  uuid = codes "new";
  to_json = λ addresses. [];
  write_ok = true;
  reload_ok = true;
}

abbrev no_change : UpdateUpstreamRequest
no_change = record {
  name_update = none;
  addresses_update = none;
  priority_update = none;
  active_update = none;
  check_update = none;
  failover_update = none;
  timeout_update = none;
}

abbrev tested : UpstreamState ℕ
tested =
    (test_upstream pool_env false (codes "fastest") upstream_env (codes "lost") (λ a. true)
      upstreams_state).0

find_lost : find_row (codes "lost") upstreams_state.rows ≡ some lost_upstream
unfolding find_row text_eq
find_lost = refl

find_other : find_row (codes "other") tested.rows ≡ some other_upstream
unfolding find_row text_eq test_upstream set_status
find_other = refl

other_name : codes "other" ≢ codes "lost"
unfolding text_eq
other_name = differ (codes "other") (codes "lost") refl

test_upstream-update_upstream_example :
    (n : UpstreamNode ℕ) × In n
      (update_upstream pool_env false
        (codes "fastest")
        upstream_env
        (codes "other")
        no_change
        tested).0.pool.nodes
    × (n.model.id ≡ codes "lost")
test_upstream-update_upstream_example =
    test_upstream-update_upstream pool_env false (codes "fastest") upstream_env upstream_env
      (codes "lost") (codes "other") (λ a. true) no_change upstreams_state lost_upstream
      other_upstream (codes "9.9.9.9") [] refl refl refl find_lost refl refl refl other_name
      find_other

failover_run :
    trigger_failover true upstreams_state.rows ≡ ok (switched_to (codes "other") (codes "other"))
unfolding trigger_failover
failover_run = refl

abbrev groups : GroupTables
groups = record {
  group_ids = pos 1 ∷ [];
  client_ids = codes "c1" ∷ codes "c2" ∷ [];
  custom_ids = codes "r1" ∷ [];
  rewrite_ids = [];
  memberships = (codes "c1", pos 1) ∷ [];
  bindings = [];
}

abbrev group_state : GroupState
group_state = record { tables = groups; cached = (codes "10.0.0.1", groups) ∷ [] }

abbrev both_clients : GroupFresh.Request
both_clients = add true (pos 1) (codes "c1" ∷ codes "c2" ∷ codes "c9" ∷ [])

serve-IsFresh_example : IsFresh (GroupFresh.serve both_clients group_state)
serve-IsFresh_example = serve-IsFresh both_clients group_state tt (refl, tt)

added_run :
    (batch_add_clients true (pos 1) (codes "c1" ∷ codes "c2" ∷ codes "c9" ∷ []) group_state).1
    ≡ ok (1, codes "c1" ∷ codes "c9" ∷ [])
unfolding batch_add_clients
added_run = refl

abbrev mixed_rules : List BindRuleRequest
mixed_rules =
    record { wanted_id = codes "r1"; wanted_type = codes "custom_rule"; wanted_priority = none }
    ∷ record { wanted_id = codes "r2"; wanted_type = codes "filter"; wanted_priority = none }
    ∷ []

-- An unknown type leaves the first rule bound and the cache as it was.
stale_run :
    (length (batch_bind_rules (pos 1) mixed_rules group_state).0.tables.bindings ≡ 1)
    × ((batch_bind_rules (pos 1) mixed_rules group_state).0.cached
        ≡ (codes "10.0.0.1", groups) ∷ [])
unfolding batch_bind_rules
stale_run = (refl, refl)

-- A move changes the members and leaves the cache with the tables as they were.
moved_run :
    (map
        (λ (m : Text × ℤ). m.0)
        (batch_move_clients none (some (pos 1)) (codes "c2" ∷ []) group_state).0.tables.memberships
      ≡ codes "c1" ∷ codes "c2" ∷ [])
    × ((batch_move_clients none (some (pos 1)) (codes "c2" ∷ []) group_state).0.cached
        ≡ (codes "10.0.0.1", groups) ∷ [])
unfolding batch_move_clients
moved_run = (refl, refl)
