-- ===== src/Pool.antt =====
-- src/dns/upstream_pool.rs and the model of an upstream in src/db/models/upstream.rs: the nodes of
-- the pool, the order in which a query tries them, and the first answer.
pub mod Sort
pub mod Order
pub mod New
pub mod Answer
use rust_dns_backend.Base.{
  ℕ, zero, suc, ◌+◌, ◌≡◌, Bool, true, false, not, ◌&&◌, ◌||◌, Option, none, some, List, [], ◌∷◌,
  ◌++◌, if◌then◌else◌, is_nil, length, ℤ, pos, leb_ℤ, eq_ℤ,
}
use rust_dns_backend.Text.{Text, Unicode, codes, text_eq, to_lowercase}
use rust_dns_backend.Dns.{Bytes, RecordType, Message, Hickory}
use rust_dns_backend.Resolver.{LookupCrate, Resolved, resolve}
use rust_dns_backend.Resolver.Config.{NameServer, HostLookup, ConfigCrate, with_upstreams}

pub data UpstreamStrategy : Type 0 where
  priority_first load_balance fastest : UpstreamStrategy

module _ ⦃u : Unicode⦄ where
  unfoldable pub strategy_from_string : Text → UpstreamStrategy
  unfolding to_lowercase text_eq
  strategy_from_string s =
      let lower = to_lowercase s in
      if text_eq lower (codes "load_balance") || text_eq lower (codes "loadbalance")
      then load_balance
      else if text_eq lower (codes "fastest")
      then fastest
      else priority_first

-- A row of `dns_upstreams`, without its time stamps and the two numbers that nothing reads here.
-- `addresses` is a JSON array.
pub record Upstream : Type 0 where
  pub id : Text
  pub name : Text
  pub addresses : Text
  pub priority : ℤ
  pub is_active : Bool
  pub health_check_enabled : Bool
  pub failover_enabled : Bool
  pub health_check_timeout : ℤ
  pub health_status : Text

pub record UpstreamNode (R : Type 0) : Type 0 where
  pub model : Upstream
  pub resolver : R
  pub last_latency_ms : ℤ

pub record UpstreamPool (R : Type 0) : Type 0 where
  pub nodes : List (UpstreamNode R)
  pub strategy : UpstreamStrategy

-- `sort_by_key`, which is stable: a node goes in front of the later ones with the same key.
module _ {A : Type 0} where
  unfoldable pub insert_by : (A → ℤ) → A → List A → List A
  insert_by key x [] = x ∷ []
  insert_by key x (y ∷ ys) = if leb_ℤ (key x) (key y) then x ∷ y ∷ ys else y ∷ insert_by key x ys

  unfoldable pub sort_by_key : (A → ℤ) → List A → List A
  unfolding insert_by
  sort_by_key key [] = []
  sort_by_key key (x ∷ xs) = insert_by key x (sort_by_key key xs)

module _ {R : Type 0} where
  abbrev pub priority_of : UpstreamNode R → ℤ
  priority_of n = n.model.priority

  abbrev pub latency_of : UpstreamNode R → ℤ
  latency_of n = n.last_latency_ms

-- Neither inactive nor known to be broken.
unfoldable pub is_usable : Upstream → Bool
unfolding text_eq
is_usable m = not (
    not m.is_active
    || text_eq m.health_status (codes "degraded")
    || text_eq m.health_status (codes "dead"))

abbrev pub fallback_addresses : List Text
fallback_addresses = codes "1.1.1.1:53" ∷ codes "8.8.8.8:53" ∷ []

abbrev pub fallback_model : Upstream
fallback_model = record {
  id = codes "fallback";
  name = codes "Cloudflare/Google Fallback";
  addresses = codes "[\"1.1.1.1:53\", \"8.8.8.8:53\"]";
  priority = pos 999;
  is_active = true;
  health_check_enabled = false;
  failover_enabled = false;
  health_check_timeout = pos 0;
  health_status = codes "healthy";
}

-- `serde_json::from_str::<Vec<String>>`, the system's host lookup, and the client of
-- `hickory_resolver` for a list of name servers.
pub record PoolEnv (R : Type 0) : Type 0 where
  pub json_strings : Text → Option (List Text)
  pub lookup_host : HostLookup
  pub connect : List NameServer → R

module _ ⦃u : Unicode⦄ ⦃config : ConfigCrate⦄ {R : Type 0} (env : PoolEnv R)
    (prefer_ipv4 : Bool) where
  -- `DnsResolver::with_upstreams`, which always gives a resolver.
  unfoldable pub make_resolver : List Text → R
  make_resolver addrs = env.connect (with_upstreams env.lookup_host prefer_ipv4 addrs)

  -- One round of the loop over the rows.
  unfoldable pub node_of : Upstream → Option (UpstreamNode R)
  node_of m = if not (is_usable m) then none else elim (env.json_strings m.addresses) [
    | none ↦ none
    | some addrs ↦
        if is_nil addrs
        then none
        else some (record { model = m; resolver = make_resolver addrs; last_latency_ms = pos 0 })
  ]

  unfoldable pub nodes_of : List Upstream → List (UpstreamNode R)
  nodes_of [] = []
  nodes_of (m ∷ ms) = let rest = nodes_of ms in elim (node_of m) [ none ↦ rest | some n ↦ n ∷ rest ]

  unfoldable pub fallback_node : UpstreamNode R
  fallback_node = record {
    model = fallback_model;
    resolver = make_resolver fallback_addresses;
    last_latency_ms = pos 0;
  }

  unfoldable pub new_pool : List Upstream → Text → UpstreamPool R
  new_pool upstreams strategy_str =
      let sorted = sort_by_key priority_of (nodes_of upstreams) in
      record {
        nodes = if is_nil sorted then fallback_node ∷ [] else sorted;
        strategy = strategy_from_string strategy_str;
      }

module _ {R : Type 0} where
  unfoldable pub store_latency : Text → ℤ → List (UpstreamNode R) → List (UpstreamNode R)
  unfolding text_eq
  store_latency upstream_id latency [] = []
  store_latency upstream_id latency (n ∷ ns) =
      (if text_eq n.model.id upstream_id then record n { last_latency_ms = latency } else n)
      ∷ store_latency upstream_id latency ns

  unfoldable pub update_latency : UpstreamPool R → Text → ℤ → UpstreamPool R
  unfolding store_latency
  update_latency pool upstream_id latency = record pool {
    nodes = store_latency upstream_id latency pool.nodes;
  }

  -- The nodes at the front with the given priority, and the others: `position` of the first other.
  unfoldable pub span_priority :
      ℤ → List (UpstreamNode R) → List (UpstreamNode R) × List (UpstreamNode R)
  span_priority p [] = ([], [])
  span_priority p (n ∷ ns) =
      let rest = span_priority p ns in
      if eq_ℤ (priority_of n) p then (n ∷ rest.0, rest.1) else ([], n ∷ ns)

-- `SliceRandom::shuffle` with the state of the generator after `k` calls.
abbrev pub Shuffle : Type 0 → Type 0
Shuffle R = ℕ → List (UpstreamNode R) → List (UpstreamNode R)

module _ {R : Type 0} (shuffle : Shuffle R) where
  -- The loop over the groups of one priority. A round takes the nodes of a group, so that their
  -- number bounds the rounds.
  unfoldable pub shuffle_groups : ℕ → ℕ → List (UpstreamNode R) → List (UpstreamNode R)
  shuffle_groups fuel k [] = []
  shuffle_groups zero k (n ∷ ns) = []
  shuffle_groups (suc fuel) k (n ∷ ns) =
      let (group, others) = span_priority (priority_of n) ns in
      shuffle k (n ∷ group) ++ shuffle_groups fuel (suc k) others

  unfoldable pub nodes_to_try : UpstreamPool R → List (UpstreamNode R)
  nodes_to_try pool = elim pool.strategy [
    | priority_first ↦ shuffle_groups (length pool.nodes) 0 pool.nodes
    | load_balance ↦ shuffle 0 pool.nodes
    | fastest ↦ sort_by_key latency_of pool.nodes
  ]

module _ {R : Type 0} ⦃client : LookupCrate R⦄ ⦃hickory : Hickory⦄ where
  -- The loop over the nodes: the first answer, under the node's name. `none` is the last error.
  unfoldable pub try_nodes : List (UpstreamNode R) → Text → RecordType → Message → Option Resolved
  try_nodes [] domain qtype request = none
  try_nodes (n ∷ ns) domain qtype request =
      let rest = try_nodes ns domain qtype request in
      elim (resolve n.resolver domain qtype request) [
        | some (res, min_ttl, _) ↦ some (res, min_ttl, some n.model.name)
        | none ↦ rest
      ]

  unfoldable pub pool_resolve :
      Shuffle R → UpstreamPool R → Text → RecordType → Message → Option Resolved
  pool_resolve shuffle pool domain qtype request =
      try_nodes (nodes_to_try shuffle pool) domain qtype request
