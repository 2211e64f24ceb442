-- ===== src/Health/Probe.antt =====
-- src/api/mod.rs: the second health check task, which probes every active row by its own interval. The
-- log of the latencies is left out, and the rows go through the round in the order of the query.
use rust_dns_backend.Base.{ℤ, Bool, ◌&&◌, none, some, List, [], ◌∷◌, if◌then◌else◌}
use rust_dns_backend.Text.{Text}
use rust_dns_backend.Map.{Map, map_insert}
use rust_dns_backend.Pool.{Upstream, UpstreamPool, PoolEnv, update_latency}
use rust_dns_backend.Health.{set_status, status_of}

-- `UpstreamHealthResult`
pub record HealthResult : Type 0 where
  pub status : Text
  pub latency_ms : ℤ
  pub last_check_at : Text

-- The rows, the running pool, and `upstream_health`.
pub record ProbeState (R : Type 0) : Type 0 where
  pub rows : List Upstream
  pub pool : UpstreamPool R
  pub upstream_health : Map HealthResult

-- Of each id: whether its interval is over, the time that its probe takes, and whether the write of its
-- status fails; of each address whether `check_upstream_connectivity` reaches it; and whether the rows
-- can be read.
pub record ProbeInput : Type 0 where
  pub read_ok : Bool
  pub due : Text → Bool
  pub reached : Text → Bool
  pub latency : Text → ℤ
  pub write_fails : Text → Bool
  pub now : Text

-- `WHERE is_active AND health_check_enabled`
unfoldable pub is_probed : Upstream → Bool
is_probed m = m.is_active && m.health_check_enabled

-- What a probe writes: the cached result, the latency of the node, and the status of the row.
unfoldable pub record_probe : {R : Type 0} → ProbeInput → Text → Bool → ProbeState R → ProbeState R
unfolding set_status map_insert update_latency
record_probe input id success s = record {
  rows = if input.write_fails id then s.rows else set_status id (status_of success) s.rows;
  pool = update_latency s.pool id (input.latency id);
  upstream_health =
      map_insert id
        (record {
          status = status_of success;
          latency_ms = input.latency id;
          last_check_at = input.now;
        })
        s.upstream_health;
}

module _ {R : Type 0} (env : PoolEnv R) (input : ProbeInput) where
  -- One row; without an address it is skipped.
  unfoldable pub probe_row : Upstream → ProbeState R → ProbeState R
  unfolding is_probed record_probe
  probe_row m s =
      let probed : ProbeState R = elim (env.json_strings m.addresses) [
        | none ↦ s
        | some addresses ↦ elim addresses [
          | [] ↦ s
          | first_addr ∷ _ ↦ record_probe input m.id (input.reached first_addr) s
        ]
      ] in
      if is_probed m && input.due m.id then probed else s

  unfoldable pub probe_rows : List Upstream → ProbeState R → ProbeState R
  unfolding probe_row
  probe_rows [] s = s
  probe_rows (m ∷ ms) s = probe_rows ms (probe_row m s)

  -- One tick.
  unfoldable pub probe_round : ProbeState R → ProbeState R
  unfolding probe_rows
  probe_round s = if input.read_ok then probe_rows s.rows s else s
