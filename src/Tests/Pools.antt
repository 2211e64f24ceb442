-- ===== src/Tests/Pools.antt =====
-- src/dns/upstream_pool.rs and the health check task of src/main.rs at fixed inputs.
use rust_dns_backend.Health.{find_row, reload_upstreams}
use rust_dns_backend.Health.Status.{with_status}
use rust_dns_backend.Health.Probe.{ProbeState, ProbeInput, probe_round}
use rust_dns_backend.Health.Recovery.{models, probe_round-reload_upstreams}
use rust_dns_backend.Base.{
  here, ℕ, ◌≡◌, refl, ◌⊎◌, true, false, none, some, List, [], ◌∷◌, ◌++◌, All, In, is_nil, pos,
  there, ◌≢◌,
}
use mathlib.Core.List.{Permᴰ}
use mathlib.Core.List.Permᴰ
use rust_dns_backend.Text.{Text, codes, text_eq}
use rust_dns_backend.Dns.{Bytes, a, serv_fail}
use rust_dns_backend.Resolver.{Resolved, resolve, lookup_response, lookup_error}
use rust_dns_backend.Pool.{
  UpstreamStrategy, priority_first, fastest, Upstream, UpstreamNode, UpstreamPool, PoolEnv,
  is_usable, priority_of, latency_of, new_pool, fallback_node, Shuffle, nodes_to_try, pool_resolve,
  sort_by_key,
}
use rust_dns_backend.Pool.Sort.{SortedBy}
use rust_dns_backend.Pool.Order.{ShuffleLaw, nodes_to_try_lem}
use rust_dns_backend.Pool.New.{IsNodeOf, new_pool_lem}
use rust_dns_backend.Pool.Answer.{Fails, pool_resolve_lem, pool_resolve-lookup_error}
use rust_dns_backend.Tests.Fixtures.{ascii, wire, lookups, configs, asked, differ}

abbrev row : Text → ℕ → Text → Upstream
row id priority status = record {
  id = id;
  name = id;
  addresses = codes "[]";
  priority = pos priority;
  is_active = true;
  health_check_enabled = true;
  failover_enabled = true;
  health_check_timeout = pos 500;
  health_status = status;
}

abbrev node : Text → ℕ → ℕ → UpstreamNode ℕ
node id priority resolver = record {
  model = row id priority (codes "healthy");
  resolver = resolver;
  last_latency_ms = pos resolver;
}

abbrev two_nodes : UpstreamStrategy → UpstreamPool ℕ
two_nodes strategy = record {
  nodes = node (codes "dead") 1 0 ∷ node (codes "good") 2 4 ∷ [];
  strategy = strategy;
}

-- A generator that leaves every list as it is.
abbrev pub no_shuffle : Shuffle ℕ
no_shuffle = λ k ns. ns

no_shuffle_law : ShuffleLaw ℕ no_shuffle
no_shuffle_law k ns = Permᴰ.refl ns

nodes_to_try_lem_example :
    Permᴰ (two_nodes priority_first).nodes (nodes_to_try no_shuffle (two_nodes priority_first))
    × (SortedBy priority_of (two_nodes priority_first).nodes
        → priority_first ≡ priority_first
        → SortedBy priority_of (nodes_to_try no_shuffle (two_nodes priority_first)))
    × (priority_first ≡ fastest
        → SortedBy latency_of (nodes_to_try no_shuffle (two_nodes priority_first)))
nodes_to_try_lem_example = nodes_to_try_lem no_shuffle no_shuffle_law (two_nodes priority_first)

order_run :
    nodes_to_try no_shuffle (two_nodes fastest)
    ≡ node (codes "dead") 1 0 ∷ node (codes "good") 2 4 ∷ []
unfolding nodes_to_try sort_by_key
order_run = refl

pool_resolve_lem_example :
    ((before : List (UpstreamNode ℕ)) (n : UpstreamNode ℕ) (behind : List (UpstreamNode ℕ))
        (answer : Resolved)
      → nodes_to_try no_shuffle (two_nodes fastest) ≡ before ++ n ∷ behind
      → All (Fails (codes "ads.example.com.") a asked) before
      → resolve n.resolver (codes "ads.example.com.") a asked ≡ some answer
      → pool_resolve no_shuffle (two_nodes fastest) (codes "ads.example.com.") a asked
        ≡ some (answer.0, answer.1, some n.model.name))
    × (pool_resolve no_shuffle (two_nodes fastest) (codes "ads.example.com.") a asked ≡ none
        → All
            (Fails (codes "ads.example.com.") a asked)
            (nodes_to_try no_shuffle (two_nodes fastest)))
pool_resolve_lem_example =
    pool_resolve_lem no_shuffle (two_nodes fastest) (codes "ads.example.com.") a asked

abbrev failed_bytes : Bytes
failed_bytes = 0 ∷ 7 ∷ 0 ∷ []

failed_run : wire.to_vec (lookup_response asked lookup_error).0 ≡ some failed_bytes
unfolding lookup_response
failed_run = refl

pool_resolve-lookup_error_example :
    (pool_resolve no_shuffle (two_nodes fastest) (codes "ads.example.com.") a asked
      ≡ some (failed_bytes, none, some (codes "dead")))
    × ((lookup_response asked lookup_error).0.response_code ≡ serv_fail)
pool_resolve-lookup_error_example =
    pool_resolve-lookup_error no_shuffle (two_nodes fastest) (codes "ads.example.com.") a asked
      (node (codes "dead") 1 0) (node (codes "good") 2 4 ∷ []) failed_bytes order_run refl
      failed_run

-- Every row has one address.
abbrev pub pool_env : PoolEnv ℕ
pool_env = record {
  json_strings = λ s. some (codes "9.9.9.9" ∷ []);
  lookup_host = λ s. none;
  connect = λ servers. 4;
}

abbrev rows : List Upstream
rows = row (codes "slow") 3 (codes "healthy") ∷ row (codes "lost") 1 (codes "degraded") ∷ []

new_pool_lem_example :
    (is_nil (new_pool pool_env false rows (codes "fastest")).nodes ≡ false)
    × SortedBy priority_of (new_pool pool_env false rows (codes "fastest")).nodes
    × (((new_pool pool_env false rows (codes "fastest")).nodes ≡ fallback_node pool_env false ∷ [])
        ⊎ All
            (λ n. (m : Upstream) × In m rows × IsNodeOf pool_env false m n)
            (new_pool pool_env false rows (codes "fastest")).nodes)
    × ((m : Upstream) (addrs : List Text)
        → In m rows
        → is_usable m ≡ true
        → pool_env.json_strings m.addresses ≡ some addrs
        → is_nil addrs ≡ false
        → (n : UpstreamNode ℕ) × In n (new_pool pool_env false rows (codes "fastest")).nodes
          × (n.model ≡ m))
new_pool_lem_example = new_pool_lem pool_env false rows (codes "fastest")

abbrev lost : Upstream
lost = row (codes "lost") 1 (codes "degraded")

abbrev lost_state : ProbeState ℕ
lost_state = record {
  rows = rows;
  pool = record { nodes = node (codes "slow") 3 4 ∷ []; strategy = fastest };
  upstream_health = [];
}

-- All is due, every address answers, and every write succeeds.
abbrev probes : ProbeInput
probes = record {
  read_ok = true;
  due = λ id. true;
  reached = λ address. true;
  latency = λ id. pos 3;
  write_fails = λ id. false;
  now = codes "2026";
}

lost_run : find_row lost.id lost_state.rows ≡ some lost
unfolding find_row text_eq
lost_run = refl

slow_is_other : codes "slow" ≢ codes "lost"
slow_is_other = differ (codes "slow") (codes "lost") (unfold text_eq in refl)

only_lost : (x : Upstream) → In x rows → x.id ≡ lost.id → x ≡ lost
only_lost x here e = absurd (slow_is_other e)
only_lost x (there here) e = refl
only_lost x (there (there i)) e = elim i [ ]

probe_round-reload_upstreams_example :
    (models (probe_round pool_env probes lost_state).pool.nodes ≡ models lost_state.pool.nodes)
    × ((n : UpstreamNode ℕ) × In n
          (reload_upstreams pool_env false
            (codes "fastest")
            (probe_round pool_env probes lost_state).rows).nodes
        × (n.model ≡ with_status lost (codes "healthy")))
probe_round-reload_upstreams_example =
    probe_round-reload_upstreams pool_env probes lost (codes "9.9.9.9") [] refl refl refl refl refl
      refl false (codes "fastest") lost_state refl lost_run only_lost
