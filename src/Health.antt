-- ===== src/Health.antt =====
-- src/main.rs, the rounds of `run_upstream_health_check_task`, with `UpstreamPool::health_check_all`
-- of src/dns/upstream_pool.rs and `DnsHandler::reload_upstreams` of src/dns/handler.rs. The reads of
-- the database are taken to succeed; its writes may fail. The tasks of a check are taken to end in
-- the order in which they were spawned.
pub mod Status
pub mod Probe
pub mod Recovery
use rust_dns_backend.Base.{
  ℕ, zero, suc, Bool, true, false, not, ◌&&◌, Option, none, some, List, [], ◌∷◌, ◌++◌, leb,
  if◌then◌else◌, ℤ, pos, negsuc,
}
use rust_dns_backend.Text.{Text, Unicode, codes, text_eq}
use rust_dns_backend.Dns.{query, a, Message, new_message, Hickory}
use rust_dns_backend.Resolver.{LookupCrate, resolve}
use rust_dns_backend.Resolver.Config.{ConfigCrate}
use rust_dns_backend.Pool.{Upstream, UpstreamNode, UpstreamPool, PoolEnv, new_pool}

-- The probe's message.
abbrev pub test_req : Message
test_req = record new_message {
  id = 1;
  message_type = query;
  recursion_desired = true;
  queries = record { name = codes "example.com."; query_type = a } ∷ [];
}

unfoldable pub timeout_ms : ℤ → ℕ
timeout_ms (pos zero) = 2000
timeout_ms (pos (suc n)) = suc n
timeout_ms (negsuc n) = 2000

-- `(upstream_id, latency_ms, is_healthy)`
abbrev pub CheckResult : Type 0
CheckResult = Text × ℕ × Bool

module _ {R : Type 0} (elapsed : UpstreamNode R → ℕ) where
  -- Each checked node keeps its latency.
  unfoldable pub checked_nodes : List (UpstreamNode R) → List (UpstreamNode R)
  checked_nodes [] = []
  checked_nodes (n ∷ ns) =
      (if n.model.health_check_enabled then record n { last_latency_ms = pos (elapsed n) } else n)
      ∷ checked_nodes ns

-- `elapsed` is the time that a node's probe takes, in milliseconds.
module _ {R : Type 0} ⦃client : LookupCrate R⦄ ⦃hickory : Hickory⦄
    (elapsed : UpstreamNode R → ℕ) where
  -- The probe is healthy when `resolve` succeeds before the timeout.
  unfoldable pub is_healthy : UpstreamNode R → Bool
  is_healthy n =
      leb (elapsed n) (timeout_ms n.model.health_check_timeout)
      && (elim (resolve n.resolver (codes "example.com") a test_req) [
        | none ↦ false
        | some _ ↦ true
      ])

  unfoldable pub check_results : List (UpstreamNode R) → List CheckResult
  check_results [] = []
  check_results (n ∷ ns) =
      let rest = check_results ns in
      if n.model.health_check_enabled then (n.model.id, elapsed n, is_healthy n) ∷ rest else rest

  unfoldable pub health_check_all : UpstreamPool R → UpstreamPool R × List CheckResult
  health_check_all pool =
      (record pool { nodes = checked_nodes elapsed pool.nodes }, check_results pool.nodes)

pub data FailoverAction : Type 0 where
  failover recover : FailoverAction

-- The table `dns_upstreams` in the order of `UpstreamRepository::list`, the running pool, and the failover log, newest last.
pub record HealthState (R : Type 0) : Type 0 where
  pub rows : List Upstream
  pub pool : UpstreamPool R
  pub failover_log : List (Text × FailoverAction)

abbrev pub status_of : Bool → Text
status_of true = codes "healthy"
status_of false = codes "degraded"

-- `UpstreamRepository::update_health_status`
unfoldable pub set_status : Text → Text → List Upstream → List Upstream
unfolding text_eq
set_status upstream_id status [] = []
set_status upstream_id status (m ∷ ms) =
    (if text_eq m.id upstream_id then record m { health_status = status } else m)
    ∷ set_status upstream_id status ms

-- `upstreams.iter().find(|u| u.id == upstream_id)`
unfoldable pub find_row : Text → List Upstream → Option Upstream
unfolding text_eq
find_row upstream_id [] = none
find_row upstream_id (m ∷ ms) = if text_eq m.id upstream_id then some m else find_row upstream_id ms

-- The change of status that is logged and asks for a reload, by the row read before the updates.
unfoldable pub changed : Option Upstream → Text → Bool
unfolding text_eq
changed none status = false
changed (some m) status = not (text_eq m.health_status status) && m.failover_enabled

abbrev pub action_of : Bool → FailoverAction
action_of true = recover
action_of false = failover

-- What one result does to the rows, the log, and `needs_reload`; a failed write skips the rest.
abbrev pub Progress : Type 0
Progress = List Upstream × List (Text × FailoverAction) × Bool

module _ (write_fails : Text → Bool) (snapshot : List Upstream) where
  unfoldable pub apply_result : CheckResult → Progress → Progress
  apply_result (upstream_id, latency, healthy) (rows, log, needs_reload) =
      if write_fails upstream_id
      then (rows, log, needs_reload)
      else if changed (find_row upstream_id snapshot) (status_of healthy)
      then (
        set_status upstream_id (status_of healthy) rows,
        log ++ (upstream_id, action_of healthy) ∷ [],
        true,
      )
      else (set_status upstream_id (status_of healthy) rows, log, needs_reload)

  unfoldable pub apply_results : List CheckResult → Progress → Progress
  apply_results [] progress = progress
  apply_results (r ∷ rs) progress = apply_results rs (apply_result r progress)

-- What the round reads from outside: the probes' times, and the writes that fail.
pub record RoundInput (R : Type 0) : Type 0 where
  pub elapsed : UpstreamNode R → ℕ
  pub write_fails : Text → Bool

module _ ⦃u : Unicode⦄ ⦃config : ConfigCrate⦄ {R : Type 0} (env : PoolEnv R) (prefer_ipv4 : Bool)
    (strategy : Text) where
  -- `reload_upstreams`: a new pool of the rows as they are.
  unfoldable pub reload_upstreams : List Upstream → UpstreamPool R
  reload_upstreams rows = new_pool env prefer_ipv4 rows strategy

module _ ⦃u : Unicode⦄ ⦃config : ConfigCrate⦄ {R : Type 0} ⦃client : LookupCrate R⦄
    ⦃hickory : Hickory⦄ (env : PoolEnv R) (prefer_ipv4 : Bool) (strategy : Text) where
  -- One tick.
  unfoldable pub health_round : RoundInput R → HealthState R → HealthState R
  health_round input s =
      let (checked, results) = health_check_all input.elapsed s.pool in
      let (rows, log, needs_reload) =
        apply_results input.write_fails s.rows results (s.rows, s.failover_log, false) in
      record {
        rows = rows;
        pool = if needs_reload then reload_upstreams env prefer_ipv4 strategy rows else checked;
        failover_log = log;
      }

  unfoldable pub health_rounds : List (RoundInput R) → HealthState R → HealthState R
  health_rounds [] s = s
  health_rounds (input ∷ inputs) s = health_rounds inputs (health_round input s)
