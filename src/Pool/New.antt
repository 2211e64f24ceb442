-- ===== src/Pool/New.antt =====
-- src/dns/upstream_pool.rs, `UpstreamPool::new`: which nodes a pool has.
use rust_dns_backend.Base.{
  pos, ◌≡◌, refl, ◌⊎◌, inl, inr, Bool, true, false, some, List, [], ◌∷◌, arith, All, All-weaken,
  Bool-cases, Option-cases, is_nil, In, here, there, pos,
}
use rust_dns_backend.Text.{Text, Unicode}
use rust_dns_backend.Resolver.Config.{ConfigCrate}
use rust_dns_backend.Pool.Sort.{SortedBy, All-perm, sort_by_key-perm, sort_by_key-SortedBy, In-perm}
use rust_dns_backend.Pool.{
  Upstream, UpstreamNode, priority_of, is_usable, PoolEnv, make_resolver, node_of, nodes_of,
  fallback_node, new_pool, sort_by_key,
}

not_nil-In : {A : Type 0} {a : A} (xs : List A) → In a xs → is_nil xs ≡ false
not_nil-In [] i = elim i [ ]
not_nil-In (x ∷ xs) i = refl

module _ ⦃u : Unicode⦄ ⦃config : ConfigCrate⦄ {R : Type 0} (env : PoolEnv R)
    (prefer_ipv4 : Bool) where
  -- A node stands for a usable row with at least one address, and its resolver is made of those.
  pub record IsNodeOf (m : Upstream) (n : UpstreamNode R) : Type 0 where
    pub same_model : n.model ≡ m
    pub usable : is_usable m ≡ true
    pub addresses :
        (addrs : List Text) × (env.json_strings m.addresses ≡ some addrs)
        × (is_nil addrs ≡ false)
        × (n.resolver ≡ make_resolver env prefer_ipv4 addrs)

  node_of-IsNodeOf :
      (m : Upstream) {n : UpstreamNode R} → node_of env prefer_ipv4 m ≡ some n → IsNodeOf m n
  unfolding node_of
  node_of-IsNodeOf m {n} h = elim (Option-cases (env.json_strings m.addresses)) [
    | inl e ↦ absurd (ground arith)
    | inr (addrs, e) ↦
        let usable : is_usable m ≡ true = ground arith in
        let some_address : is_nil addrs ≡ false = ground arith in
        record {
          same_model = ground arith;
          usable = usable;
          addresses = (addrs, e, some_address, ground arith);
        }
  ]

  node_at : Upstream → List Text → UpstreamNode R
  node_at m addrs = record {
    model = m;
    resolver = make_resolver env prefer_ipv4 addrs;
    last_latency_ms = pos 0;
  }

  node_of-usable :
      (m : Upstream)
      → is_usable m ≡ true
      → (addrs : List Text) → env.json_strings m.addresses ≡ some addrs
      → is_nil addrs ≡ false
      → node_of env prefer_ipv4 m ≡ some (node_at m addrs)
  unfolding node_of node_at
  node_of-usable m usable addrs e k = rw (usable, e, node_of) (rw k)

  nodes_of-All :
      (ms : List Upstream)
      → All (λ n. (m : Upstream) × In m ms × IsNodeOf m n) (nodes_of env prefer_ipv4 ms)
  unfolding nodes_of
  nodes_of-All [] = tt
  nodes_of-All (m ∷ ms) =
      let rest =
        All-weaken (λ n. (x : Upstream) × In x ms × IsNodeOf x n)
          (λ n. (x : Upstream) × In x (m ∷ ms) × IsNodeOf x n) (nodes_of env prefer_ipv4 ms)
          (λ n (x, i, k). (x, there i, k)) (nodes_of-All ms) in
      elim (Option-cases (node_of env prefer_ipv4 m)) [
        | inl e ↦ rw (e, nodes_of) rest
        | inr (n, e) ↦ rw (e, nodes_of) ((m, here, node_of-IsNodeOf m e), rest)
      ]

  -- A usable row with an address has its node.
  nodes_of_complete :
      (ms : List Upstream) {m : Upstream}
      → In m ms
      → is_usable m ≡ true
      → (addrs : List Text) → env.json_strings m.addresses ≡ some addrs
      → is_nil addrs ≡ false
      → (n : UpstreamNode R) × In n (nodes_of env prefer_ipv4 ms) × (n.model ≡ m)
  unfolding nodes_of node_at
  nodes_of_complete [] i usable addrs e k = elim i [ ]
  nodes_of_complete (m ∷ ms) here usable addrs e k =
      let made = node_of-usable m usable addrs e k in
      (node_at m addrs, rw (made, nodes_of) here, refl)
  nodes_of_complete (x ∷ ms) (there i) usable addrs e k =
      let (n, j, q) = nodes_of_complete ms i usable addrs e k in
      elim (Option-cases (node_of env prefer_ipv4 x)) [
        | inl none_of ↦ (n, rw (none_of, nodes_of) j, q)
        | inr (y, some_of) ↦ (n, rw (some_of, nodes_of) (there j), q)
      ]

  -- A pool is never empty and is sorted by priority. It is the fallback alone, or each of its
  -- nodes stands for a row that is active and neither degraded nor dead, with a resolver made of
  -- the row's addresses; and each such row with an address has a node.
  pub new_pool_lem :
      (ms : List Upstream) (strategy : Text)
      → (is_nil (new_pool env prefer_ipv4 ms strategy).nodes ≡ false)
        × SortedBy priority_of (new_pool env prefer_ipv4 ms strategy).nodes
        × (((new_pool env prefer_ipv4 ms strategy).nodes ≡ fallback_node env prefer_ipv4 ∷ [])
            ⊎ All
                (λ n. (m : Upstream) × In m ms × IsNodeOf m n)
                (new_pool env prefer_ipv4 ms strategy).nodes)
        × ((m : Upstream) (addrs : List Text)
            → In m ms
            → is_usable m ≡ true
            → env.json_strings m.addresses ≡ some addrs
            → is_nil addrs ≡ false
            → (n : UpstreamNode R) × In n (new_pool env prefer_ipv4 ms strategy).nodes
              × (n.model ≡ m))
  unfolding new_pool
  new_pool_lem ms strategy =
      let nodes = nodes_of env prefer_ipv4 ms in
      let sorted = sort_by_key priority_of nodes in
      let perm = sort_by_key-perm priority_of nodes in
      elim (Bool-cases (is_nil sorted)) [
        | inl e ↦ rw e (
          refl,
          (tt, tt),
          inl refl,
          λ m addrs i usable a k.
              let (n, j, q) = nodes_of_complete ms i usable addrs a k in
              let bad = not_nil-In sorted (In-perm perm j) in absurd (ground arith),
        )
        | inr e ↦ rw e (
          e,
          sort_by_key-SortedBy priority_of nodes,
          inr (All-perm (λ n. (m : Upstream) × In m ms × IsNodeOf m n) perm (nodes_of-All ms)),
          λ m addrs i usable a k.
              let (n, j, q) = nodes_of_complete ms i usable addrs a k in (n, In-perm perm j, q),
        )
      ]
