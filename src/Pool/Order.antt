-- ===== src/Pool/Order.antt =====
-- src/dns/upstream_pool.rs, the order in which `resolve` tries the nodes.
use rust_dns_backend.Base.{
  ℕ, zero, suc, ◌≤◌, ◌≡◌, refl, true, List, [], ◌∷◌, ◌++◌, arith, All, Bool-cases, inl, inr, ℤ,
  leb_ℤ, leb_ℤ_refl, eq_ℤ, eq_ℤ→≡, length, All-append, All-weaken,
}
use mathlib.Core.Path.{subst, ap}
use mathlib.Core.List.{Permᴰ}
use mathlib.Core.List.Permᴰ
use rust_dns_backend.Pool.Sort.{SortedBy, All-perm, sort_by_key-perm, sort_by_key-SortedBy}
use rust_dns_backend.Pool.{
  UpstreamNode, UpstreamPool, UpstreamStrategy, priority_first, load_balance, fastest, priority_of,
  latency_of, span_priority, Shuffle, shuffle_groups, nodes_to_try, sort_by_key,
}

module _ {R : Type 0} where
  abbrev pub AtLeast : ℤ → List (UpstreamNode R) → Type 0
  AtLeast p ns = All (λ n. leb_ℤ p (priority_of n) ≡ true) ns

  -- The group and the others are the nodes, cut in two.
  span_append :
      (p : ℤ) (ns : List (UpstreamNode R)) → (span_priority p ns).0 ++ (span_priority p ns).1 ≡ ns
  unfolding span_priority
  span_append p [] = refl
  span_append p (n ∷ ns) = elim (Bool-cases (eq_ℤ (priority_of n) p)) [
    | inl e ↦ rw e (ap (λ (r : List (UpstreamNode R)). n ∷ r) (span_append p ns))
    | inr e ↦ rw e
  ]

  span_group :
      (p : ℤ) (ns : List (UpstreamNode R)) → All (λ n. priority_of n ≡ p) (span_priority p ns).0
  unfolding span_priority
  span_group p [] = tt
  span_group p (n ∷ ns) = elim (Bool-cases (eq_ℤ (priority_of n) p)) [
    | inl e ↦ rw e (eq_ℤ→≡ (priority_of n) p e, span_group p ns)
    | inr e ↦ rw e tt
  ]

  span_length : (p : ℤ) (ns : List (UpstreamNode R)) → length (span_priority p ns).1 ≤ length ns
  unfolding span_priority
  span_length p [] = omega arith
  span_length p (n ∷ ns) = ground (arith, span_length p ns)

  span_others :
      (P : UpstreamNode R → Type 0) (p : ℤ) (ns : List (UpstreamNode R))
      → All P ns
      → All P (span_priority p ns).1
  unfolding span_priority
  span_others P p [] h = tt
  span_others P p (n ∷ ns) h = elim (Bool-cases (eq_ℤ (priority_of n) p)) [
    | inl e ↦ rw e (span_others P p ns h.1)
    | inr e ↦ rw e h
  ]

  span_sorted :
      (p : ℤ) (ns : List (UpstreamNode R))
      → SortedBy priority_of ns
      → SortedBy priority_of (span_priority p ns).1
  unfolding span_priority
  span_sorted p [] h = tt
  span_sorted p (n ∷ ns) h = elim (Bool-cases (eq_ℤ (priority_of n) p)) [
    | inl e ↦ rw e (span_sorted p ns h.1)
    | inr e ↦ rw e h
  ]

-- The documentation of `shuffle`: the nodes in some order.
abbrev pub ShuffleLaw : (R : Type 0) → Shuffle R → Type 0
ShuffleLaw R shuffle = (k : ℕ) (ns : List (UpstreamNode R)) → Permᴰ ns (shuffle k ns)

module _ {R : Type 0} (shuffle : Shuffle R) (law : ShuffleLaw R shuffle) where
  shuffle_groups-perm :
      (fuel k : ℕ) (ns : List (UpstreamNode R))
      → length ns ≤ fuel
      → Permᴰ ns (shuffle_groups shuffle fuel k ns)
  unfolding shuffle_groups
  shuffle_groups-perm fuel k [] h = Permᴰ.nil
  shuffle_groups-perm zero k (n ∷ ns) h = absurd (omega arith)
  shuffle_groups-perm (suc fuel) k (n ∷ ns) h =
      let (group, others) = span_priority (priority_of n) ns in
      let joined : (n ∷ group) ++ others ≡ n ∷ ns =
        ap (λ (r : List (UpstreamNode R)). n ∷ r) (span_append (priority_of n) ns) in
      subst
        (λ (r : List (UpstreamNode R)).
          Permᴰ r (shuffle k (n ∷ group) ++ shuffle_groups shuffle fuel (suc k) others))
        joined
        (Permᴰ.trans (Permᴰ.append_right others (law k (n ∷ group))) (
          Permᴰ.append_left (shuffle k (n ∷ group)) (
            shuffle_groups-perm fuel (suc k) others
              (omega (arith, span_length (priority_of n) ns)))))

  -- Nodes of one priority, in front of sorted nodes of no lower one.
  append-SortedBy :
      (p : ℤ) (xs ys : List (UpstreamNode R))
      → All (λ n. priority_of n ≡ p) xs
      → AtLeast p ys
      → SortedBy priority_of ys
      → SortedBy priority_of (xs ++ ys)
  append-SortedBy p [] ys e h s = s
  append-SortedBy p (x ∷ xs) ys e h s = (
    All-append (λ y. leb_ℤ (priority_of x) (priority_of y) ≡ true) xs ys
        (All-weaken (λ n. priority_of n ≡ p) (λ n. leb_ℤ (priority_of x) (priority_of n) ≡ true) xs
          (λ n k. rw (e.0, k) (leb_ℤ_refl p)) e.1)
        (rw e.0 h),
    append-SortedBy p xs ys e.1 h s,
  )

  shuffle_groups-SortedBy :
      (fuel k : ℕ) (ns : List (UpstreamNode R))
      → length ns ≤ fuel
      → SortedBy priority_of ns
      → SortedBy priority_of (shuffle_groups shuffle fuel k ns)
  unfolding shuffle_groups
  shuffle_groups-SortedBy fuel k [] h s = tt
  shuffle_groups-SortedBy zero k (n ∷ ns) h s = tt
  shuffle_groups-SortedBy (suc fuel) k (n ∷ ns) h s =
      let p : ℤ = priority_of n in
      let (group, others) = span_priority p ns in
      let enough : length others ≤ fuel = omega (arith, span_length p ns) in
      append-SortedBy p (shuffle k (n ∷ group)) (shuffle_groups shuffle fuel (suc k) others)
        (All-perm (λ m. priority_of m ≡ p) (law k (n ∷ group)) (refl, span_group p ns))
        (All-perm (λ m. leb_ℤ p (priority_of m) ≡ true)
          (shuffle_groups-perm fuel (suc k) others enough)
          (span_others (λ m. leb_ℤ p (priority_of m) ≡ true) p ns s.0))
        (shuffle_groups-SortedBy fuel (suc k) others enough (span_sorted p ns s.1))

  -- Under every strategy each node is tried exactly once.
  nodes_to_try-perm : (pool : UpstreamPool R) → Permᴰ pool.nodes (nodes_to_try shuffle pool)
  unfolding nodes_to_try
  nodes_to_try-perm pool = by_strategy pool.strategy
    where
      by_strategy :
          (s : UpstreamStrategy)
          → Permᴰ pool.nodes (elim s [
            | priority_first ↦ shuffle_groups shuffle (length pool.nodes) 0 pool.nodes
            | load_balance ↦ shuffle 0 pool.nodes
            | fastest ↦ sort_by_key latency_of pool.nodes
          ])
      by_strategy priority_first =
          shuffle_groups-perm (length pool.nodes) 0 pool.nodes (omega arith)
      by_strategy load_balance = law 0 pool.nodes
      by_strategy fastest = sort_by_key-perm latency_of pool.nodes

  -- Every strategy tries each node of the pool exactly once. By priority, no node is tried before one
  -- of a smaller number, provided that the pool is sorted; by latency, no node before a faster one. `shuffle` is
  -- taken to permute.
  pub nodes_to_try_lem :
      (pool : UpstreamPool R)
      → Permᴰ pool.nodes (nodes_to_try shuffle pool)
        × (SortedBy priority_of pool.nodes
            → pool.strategy ≡ priority_first
            → SortedBy priority_of (nodes_to_try shuffle pool))
        × (pool.strategy ≡ fastest → SortedBy latency_of (nodes_to_try shuffle pool))
  unfolding nodes_to_try
  nodes_to_try_lem pool = (
    nodes_to_try-perm pool,
    λ s e.
        rw (e, nodes_to_try)
          (shuffle_groups-SortedBy (length pool.nodes) 0 pool.nodes (omega arith) s),
    λ e. rw (e, nodes_to_try) (sort_by_key-SortedBy latency_of pool.nodes),
  )
