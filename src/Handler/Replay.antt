-- ===== src/Handler/Replay.antt =====
-- src/dns/handler.rs: a response that was fetched, stored, and given again to a later query.
use rust_dns_backend.Base.{
  ℕ, ◌+◌, ◌*◌, ◌/◌, ◌%◌, ◌<◌, ◌≡◌, refl, ap, ◌∙◌, sym, inl, inr, Option, some, none, List, ◌∷◌,
  arith, Option-cases,
}
use rust_dns_backend.Text.{Text, Unicode}
use rust_dns_backend.Acl.{IpnetCrate}
use rust_dns_backend.Dns.{Bytes, Query, Message, Hickory}
use rust_dns_backend.Cache.{
  CacheEntry, MokaCrate, MokaLaws, expire_after_create, cache_key, get, set_with_ttl,
}
use rust_dns_backend.Cache.Laws.{get-set_with_ttl, clamp_ttl_bounds}
use rust_dns_backend.Rules.{RegexCrate}
use rust_dns_backend.Client.{ClientConfig}
use rust_dns_backend.Resolver.{LookupCrate, resolve}
use rust_dns_backend.Resolver.Config.{ConfigCrate}
use rust_dns_backend.Handler.Responses.{patch_id}
use rust_dns_backend.Handler.State.{HandlerState, HandlerEnv, log_query, resolver_key}
use rust_dns_backend.Handler.Steps.{answer_resolved, resolve_query, get_or_create_client_resolver}
use rust_dns_backend.Handler.Handle.{handle_miss, handle_allowed}

-- A response given again carries the id of the query that it answers, in two bytes, most significant
-- first; the rest of it is as it was. An id has 16 bits.
patch_id_lem :
    (id b c : ℕ) (bytes : Bytes)
    → id < 65536
    → (high low : ℕ) × (patch_id id (b ∷ c ∷ bytes) ≡ high ∷ low ∷ bytes)
      × (high < 256)
      × (low < 256)
      × (high * 256 + low ≡ id)
unfolding patch_id
patch_id_lem id b c bytes h =
    ((id / 256) % 256, id % 256, refl, omega arith, omega arith, omega arith)

module _ {N S R C D E : Type 0} (ipnet : IpnetCrate N) ⦃u : Unicode⦄ ⦃hickory : Hickory⦄
    ⦃re : RegexCrate S⦄ ⦃client : LookupCrate R⦄ ⦃config : ConfigCrate⦄
    ⦃cache : MokaCrate CacheEntry C⦄ ⦃resolvers : MokaCrate R E⦄ where
  created-cache :
      (env : HandlerEnv R) (upstreams : List Text) (s : HandlerState N S R C D E)
      → (get_or_create_client_resolver env upstreams s).1.cache ≡ s.cache
  unfolding get_or_create_client_resolver
  created-cache env upstreams s =
      elim (Option-cases
        (resolvers.cache_get env.now (resolver_key upstreams) s.client_resolvers)) [
          | inl e ↦ rw (e, get_or_create_client_resolver) refl
          | inr (r, e) ↦ rw (e, get_or_create_client_resolver) refl
        ]

  resolve_query-cache :
      (env : HandlerEnv R) (c : ClientConfig S) (q : Query) (request : Message)
      (s : HandlerState N S R C D E)
      → (resolve_query env c q request s).1.cache ≡ s.cache
  unfolding resolve_query
  resolve_query-cache env c q request s = elim (Option-cases c.upstream_urls) [
    | inl e ↦ rw e refl
    | inr (urls, e) ↦
        elim (Option-cases
          (resolve (get_or_create_client_resolver env urls s).0 q.name q.query_type request)) [
            | inl k ↦ rw (e, resolve_query) (rw k (created-cache env urls s))
            | inr (r, k) ↦ rw (e, resolve_query) (rw k (created-cache env urls s))
          ]
  ]

  -- A miss that gives a response stores it under the query's key.
  miss_stores :
      (env : HandlerEnv R) (c : ClientConfig S) (client_ip : Text) (request : Message) (q : Query)
      (s : HandlerState N S R C D E) {bytes : Bytes}
      → (handle_miss ipnet env c client_ip request q s).0 ≡ some bytes
      → (min_ttl : Option ℕ) × ((handle_miss ipnet env c client_ip request q s).1.cache
          ≡ set_with_ttl env.now s.cache q.name q.query_type bytes min_ttl)
  unfolding handle_miss answer_resolved log_query
  miss_stores env c client_ip request q s {bytes} h =
      elim (Option-cases (resolve_query env c q request s).0) [
        | inl e ↦ absurd (ground arith)
        | inr (r, e) ↦ elim (Option-cases (hickory.from_vec r.0)) [
          | inl j ↦ absurd (ground arith)
          | inr (m, j) ↦
              let same : r.0 ≡ bytes = ground arith in
              (
                r.1,
                rw (e, handle_miss)
                    (rw j (
                      rw (sym same) (
                        ap (λ (x : C). set_with_ttl env.now x q.name q.query_type r.0 r.1)
                          (resolve_query-cache env c q request s)))),
              )
        ]
      ]

  -- A query finds nothing in the cache and gets a response. When a later query that reaches the cache,
  -- with the same name up to case and the same type, finds the response there, it gets the same bytes
  -- but for the first two, which are its own id, most significant byte first, less than a day later,
  -- whoever asks and whatever its upstreams are. An id has 16 bits; the second query finds the cache as
  -- the first left it, and `moka` is taken to keep its promises.
  pub handle_allowed-handle_allowed :
      (laws : MokaLaws expire_after_create cache) (env later : HandlerEnv R) (c d : ClientConfig S)
      (client_ip other_ip : Text) (request again : Message) (q r : Query)
      (s t : HandlerState N S R C D E) {x y : ℕ} {bytes found : Bytes}
      → get env.now s.cache q.name q.query_type ≡ none
      → (handle_allowed ipnet env c client_ip request q s).0 ≡ some (x ∷ y ∷ bytes)
      → t.cache ≡ (handle_allowed ipnet env c client_ip request q s).1.cache
      → cache_key q.name q.query_type ≡ cache_key r.name r.query_type
      → get later.now t.cache r.name r.query_type ≡ some found
      → again.id < 65536
      → (high low : ℕ) × ((handle_allowed ipnet later d other_ip again r t).0
          ≡ some (high ∷ low ∷ bytes))
        × (high < 256)
        × (low < 256)
        × (high * 256 + low ≡ again.id)
        × (later.now < env.now + 86400)
  unfolding handle_allowed
  handle_allowed-handle_allowed laws env later c d client_ip other_ip request again q r s t {x} {y}
        {bytes} {found} absent h kept key hit id_small =
      let fetched : (handle_miss ipnet env c client_ip request q s).0 ≡ some (x ∷ y ∷ bytes) =
        rw (absent, handle_allowed) at h in
      let (min_ttl, stored) = miss_stores env c client_ip request q s fetched in
      let kept' : t.cache ≡ (handle_miss ipnet env c client_ip request q s).1.cache =
        rw (absent, handle_allowed) at kept in
      let read : get later.now
            (set_with_ttl env.now s.cache q.name q.query_type (x ∷ y ∷ bytes) min_ttl) r.name
            r.query_type
          ≡ some found =
        ap (λ z. get later.now z r.name r.query_type) (sym stored ∙ sym kept') ∙ hit in
      let (same, time) =
        get-set_with_ttl laws later.now env.now s.cache q.name r.name q.query_type r.query_type
          (x ∷ y ∷ bytes) min_ttl absent key read in
      let (high, low, patched, is_high, is_low, is_id) = patch_id_lem again.id x y bytes id_small in
      (
        high,
        low,
        rw (hit, handle_allowed) (ap some (ap (patch_id again.id) same ∙ patched)),
        is_high,
        is_low,
        is_id,
        omega (arith, time, (clamp_ttl_bounds min_ttl).1),
      )
