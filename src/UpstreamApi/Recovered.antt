-- ===== src/UpstreamApi/Recovered.antt =====
-- src/api/handlers/upstreams.rs with src/dns/upstream_pool.rs: the way of a degraded upstream back into
-- the pool, and what stays out of it.
use rust_dns_backend.Base.{
  ◌≡◌, ◌≢◌, refl, ap, ◌∙◌, Bool, true, false, some, List, [], ◌∷◌, arith, In, here, there,
  Bool-cases, inl, inr,
}
use rust_dns_backend.Text.{Text, Unicode, codes, text_eq}
use rust_dns_backend.Text.Laws.{text_eq_iff}
use rust_dns_backend.Resolver.Config.{ConfigCrate}
use rust_dns_backend.Pool.{Upstream, UpstreamNode, PoolEnv, new_pool}
use rust_dns_backend.Pool.New.{new_pool_lem}
use rust_dns_backend.Health.{find_row, set_status, reload_upstreams}
use rust_dns_backend.Health.Status.{healthy, usable, find_row-id}
use rust_dns_backend.UpstreamApi.{
  UpstreamState, UpstreamEnv, UpdateUpstreamRequest, has_upstream_id, set_upstream, write_upstreams,
  update_upstream, test_upstream, updated_upstream,
}

set_status-In :
    (id : Text) (rows : List Upstream) {m : Upstream}
    → find_row id rows ≡ some m
    → In (healthy m) (set_status id (codes "healthy") rows)
unfolding find_row set_status
set_status-In id [] h = cc
set_status-In id (x ∷ rows) {m} h = elim (Bool-cases (text_eq x.id id)) [
  | inl e ↦ let found : x ≡ m = ground arith in rw (e, found) here
  | inr e ↦ there (set_status-In id rows (rw e at h))
]

set_upstream-In :
    (other : Text) (new m : Upstream) (rows : List Upstream)
    → other ≢ m.id
    → In m rows
    → In m (set_upstream other new rows)
unfolding set_upstream has_upstream_id
set_upstream-In other new m [] n i = elim i [ ]
set_upstream-In other new m (x ∷ rows) n here =
    let differs : text_eq m.id other ≡ false = ground (arith, text_eq_iff m.id other) in
    rw differs here
set_upstream-In other new m (x ∷ rows) n (there i) = there (set_upstream-In other new m rows n i)

module _ ⦃u : Unicode⦄ ⦃config : ConfigCrate⦄ {R : Type 0} (pool_env : PoolEnv R)
    (prefer_ipv4 : Bool) (strategy : Text) where
  test_upstream-rows :
      (env : UpstreamEnv) (id : Text) (reached : Text → Bool) (s : UpstreamState R) (m : Upstream)
      (address : Text) (addresses : List Text)
      → env.write_ok ≡ true
      → find_row id s.rows ≡ some m
      → pool_env.json_strings m.addresses ≡ some (address ∷ addresses)
      → reached address ≡ true
      → (test_upstream pool_env prefer_ipv4 strategy env id reached s).0.rows
        ≡ set_status id (codes "healthy") s.rows
  unfolding test_upstream
  test_upstream-rows env id reached s m address addresses w f j r = ground (arith, w, f, j, r)

  update_upstream-pool :
      (env : UpstreamEnv) (other : Text) (body : UpdateUpstreamRequest) (s : UpstreamState R)
      (old : Upstream)
      → env.write_ok ≡ true
      → env.reload_ok ≡ true
      → find_row other s.rows ≡ some old
      → (update_upstream pool_env prefer_ipv4 strategy env other body s).0.pool
        ≡ new_pool pool_env prefer_ipv4
            (set_upstream other (updated_upstream env body old) s.rows)
            strategy
  unfolding update_upstream write_upstreams reload_upstreams
  update_upstream-pool env other body s old w r f = ground (arith, w, r, f)

  -- An active upstream, degraded or not, is in the pool after a test of it that reaches its first
  -- address and then an update of any other upstream, whatever that changes: the pool has a node with
  -- its id. The writes and the reload are taken to succeed.
  pub test_upstream-update_upstream :
      (env env' : UpstreamEnv) (id other : Text) (reached : Text → Bool)
      (body : UpdateUpstreamRequest) (s : UpstreamState R) (m old : Upstream) (address : Text)
      (addresses : List Text)
      → env.write_ok ≡ true
      → env'.write_ok ≡ true
      → env'.reload_ok ≡ true
      → find_row id s.rows ≡ some m
      → m.is_active ≡ true
      → pool_env.json_strings m.addresses ≡ some (address ∷ addresses)
      → reached address ≡ true
      → other ≢ id
      → find_row other (test_upstream pool_env prefer_ipv4 strategy env id reached s).0.rows
        ≡ some old
      → (n : UpstreamNode R) × In n
          (update_upstream pool_env prefer_ipv4 strategy env' other body
            (test_upstream pool_env prefer_ipv4 strategy env id reached s).0).0.pool.nodes
        × (n.model.id ≡ id)
  test_upstream-update_upstream env env' id other reached body s m old address addresses w w' r f a
        j reach n g =
      let s' = (test_upstream pool_env prefer_ipv4 strategy env id reached s).0 in
      let new = updated_upstream env' body old in
      let rows : s'.rows ≡ set_status id (codes "healthy") s.rows =
        test_upstream-rows env id reached s m address addresses w f j reach in
      let same : m.id ≡ id = find_row-id id s.rows f in
      let stands : In (healthy m) (set_upstream other new s'.rows) =
        set_upstream-In other new (healthy m) s'.rows (λ e. n (e ∙ same))
          (rw rows (set_status-In id s.rows f)) in
      let (node, at, made) =
        (new_pool_lem pool_env prefer_ipv4 (set_upstream other new s'.rows) strategy).3 (healthy m)
          (address ∷ addresses) stands (usable m a) j refl in
      (
        node,
        rw (update_upstream-pool env' other body s' old w' r g) at,
        ap (λ (x : Upstream). x.id) made ∙ same,
      )
