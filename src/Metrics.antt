-- ===== src/Metrics.antt =====
-- src/metrics.rs: the counters of the queries, each an `AtomicU64` that wraps.
use rust_dns_backend.Base.{ℕ, ◌+◌, ◌%◌, ◌^◌}

pub record DnsMetrics : Type 0 where
  pub queries_total : ℕ
  pub queries_blocked : ℕ
  pub queries_allowed : ℕ
  pub queries_cached : ℕ

-- `fetch_add(1)`
unfoldable pub fetch_add_one : ℕ → ℕ
fetch_add_one n = (n + 1) % 2 ^ 64

unfoldable pub inc_blocked : DnsMetrics → DnsMetrics
unfolding fetch_add_one
inc_blocked m = record m {
  queries_total = fetch_add_one m.queries_total;
  queries_blocked = fetch_add_one m.queries_blocked;
}

unfoldable pub inc_allowed : DnsMetrics → DnsMetrics
unfolding fetch_add_one
inc_allowed m = record m {
  queries_total = fetch_add_one m.queries_total;
  queries_allowed = fetch_add_one m.queries_allowed;
}

unfoldable pub inc_cached : DnsMetrics → DnsMetrics
unfolding fetch_add_one
inc_cached m = record m {
  queries_total = fetch_add_one m.queries_total;
  queries_cached = fetch_add_one m.queries_cached;
}
