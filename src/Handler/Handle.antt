-- ===== src/Handler/Handle.antt =====
-- src/dns/handler.rs: `handle_internal` and the operations that the API calls on the handler.
use rust_dns_backend.Base.{ℕ, Bool, Option, none, some, List, if◌then◌else◌, ℤ, false, not, true}
use rust_dns_backend.Text.{Text, Unicode}
use rust_dns_backend.Acl.{IpnetCrate, from_cidrs}
use rust_dns_backend.Dns.{Bytes, Query, Message, Hickory}
use rust_dns_backend.Cache.{CacheEntry, MokaCrate, get, dns_cache_max_capacity}
use rust_dns_backend.Rules.{RegexCrate}
use rust_dns_backend.Client.{ClientConfig, resolve_client_config}
use rust_dns_backend.Resolver.{LookupCrate}
use rust_dns_backend.Resolver.Config.{ConfigCrate}
use rust_dns_backend.Pool.{Upstream, PoolEnv, new_pool, update_latency}
use rust_dns_backend.Handler.Responses.{nxdomain, servfail, refused, patch_id}
use rust_dns_backend.Handler.State.{HandlerState, HandlerEnv}
use rust_dns_backend.Handler.Steps.{
  is_rejected, is_query, first_query, rewritten, is_filtered, answer_rewritten, answer_blocked,
  answer_cached, answer_resolved, resolve_query,
}

module _ {N S R C D E : Type 0} (ipnet : IpnetCrate N) (env : HandlerEnv R) where
  -- The configuration of a client, kept for a minute (`CLIENT_CACHE_TTL`).
  unfoldable pub get_client_config :
      ⦃u : Unicode⦄
      → ⦃configs : MokaCrate (ClientConfig S) D⦄ → Text
      → HandlerState N S R C D E
      → ClientConfig S × HandlerState N S R C D E
  get_client_config ⦃configs = configs⦄ client_ip s =
      elim (configs.cache_get env.now client_ip s.client_config_cache) [
        | some cached ↦ (cached, s)
        | none ↦
            let result = resolve_client_config ipnet env.client_db client_ip in
            (
              result,
              record s {
                client_config_cache =
                    configs.cache_insert env.now client_ip result s.client_config_cache;
              },
            )
      ]

  module _ ⦃u : Unicode⦄ ⦃hickory : Hickory⦄ ⦃re : RegexCrate S⦄ ⦃client : LookupCrate R⦄
      ⦃config : ConfigCrate⦄ ⦃cache : MokaCrate CacheEntry C⦄ ⦃resolvers : MokaCrate R E⦄ where
    -- From the cache miss on.
    unfoldable pub handle_miss :
        ClientConfig S
        → Text
        → Message
        → Query
        → HandlerState N S R C D E
        → Option Bytes × HandlerState N S R C D E
    handle_miss c client_ip request q s =
        let (answer, s') = resolve_query env c q request s in
        elim answer [
          | none ↦ (none, s')
          | some resolved ↦ elim (hickory.from_vec resolved.0) [
            | none ↦ (none, s')
            | some message ↦ (some resolved.0, answer_resolved env client_ip q resolved message s')
          ]
        ]

    -- From the cache lookup on.
    unfoldable pub handle_allowed :
        ClientConfig S
        → Text
        → Message
        → Query
        → HandlerState N S R C D E
        → Option Bytes × HandlerState N S R C D E
    handle_allowed c client_ip request q s = elim (get env.now s.cache q.name q.query_type) [
      | some cached ↦ (some (patch_id request.id cached), answer_cached env client_ip q s)
      | none ↦ handle_miss c client_ip request q s
    ]

    -- With the configuration of the client: the rewrites, then the filter.
    unfoldable pub handle_configured :
        ClientConfig S
        → Text
        → Message
        → Query
        → HandlerState N S R C D E
        → Option Bytes × HandlerState N S R C D E
    handle_configured c client_ip request q s = elim (rewritten env.rewrite_ttl c s request q) [
      | some (bytes, answer) ↦ (some bytes, answer_rewritten env client_ip q answer s)
      | none ↦
          if is_filtered c s q.name
          then (nxdomain request, answer_blocked env client_ip q s)
          else handle_allowed c client_ip request q s
    ]

    module _ ⦃configs : MokaCrate (ClientConfig S) D⦄ where
      -- On a decoded message.
      unfoldable pub handle_request :
          Text → Message → HandlerState N S R C D E → Option Bytes × HandlerState N S R C D E
      handle_request client_ip request s =
          if is_rejected ipnet s client_ip
          then (refused request, s)
          else if not (is_query request)
          then (servfail request, s)
          else elim (first_query request.queries) [
            | none ↦ (servfail request, s)
            | some q ↦
                let (c, s') = get_client_config client_ip s in
                handle_configured c client_ip request q s'
          ]

      -- `handle_internal`
      unfoldable pub handle :
          Bytes → Text → HandlerState N S R C D E → Option Bytes × HandlerState N S R C D E
      handle datagram client_ip s = elim (hickory.from_vec datagram) [
        | none ↦ (none, s)
        | some request ↦ handle_request client_ip request s
      ]

module _ {N S R C D E : Type 0} where
  unfoldable pub reload_acl :
      ⦃u : Unicode⦄
      → ⦃ipnet : IpnetCrate N⦄ → List Text
      → List Text
      → HandlerState N S R C D E
      → HandlerState N S R C D E
  reload_acl allowed denied s = record s { acl = from_cidrs allowed denied }

  unfoldable pub cache_stats : ⦃cache : MokaCrate CacheEntry C⦄ → HandlerState N S R C D E → ℕ × ℕ
  cache_stats ⦃cache = cache⦄ s = (cache.entry_count s.cache, dns_cache_max_capacity)

  unfoldable pub cache_flush :
      ⦃cache : MokaCrate CacheEntry C⦄ → HandlerState N S R C D E → HandlerState N S R C D E
  cache_flush ⦃cache = cache⦄ s = record s { cache = cache.cache_invalidate_all s.cache }

  unfoldable pub invalidate_client_cache :
      ⦃configs : MokaCrate (ClientConfig S) D⦄
      → Text
      → HandlerState N S R C D E
      → HandlerState N S R C D E
  invalidate_client_cache ⦃configs = configs⦄ client_ip s = record s {
    client_config_cache = configs.cache_invalidate client_ip s.client_config_cache;
  }

  unfoldable pub invalidate_all_client_cache :
      ⦃configs : MokaCrate (ClientConfig S) D⦄ → HandlerState N S R C D E → HandlerState N S R C D E
  invalidate_all_client_cache ⦃configs = configs⦄ s = record s {
    client_config_cache = configs.cache_invalidate_all s.client_config_cache;
  }

  -- The rows and the setting `upstream_strategy` as they are read, or a failed query.
  unfoldable pub reload_upstreams :
      ⦃u : Unicode⦄
      → ⦃config : ConfigCrate⦄ → PoolEnv R
      → Bool
      → Option (List Upstream × Text)
      → HandlerState N S R C D E
      → Bool × HandlerState N S R C D E
  reload_upstreams env prefer_ipv4 none s = (false, s)
  reload_upstreams env prefer_ipv4 (some (rows, strategy)) s =
      (true, record s { upstream_pool = new_pool env prefer_ipv4 rows strategy })

  unfoldable pub update_upstream_latency :
      Text → ℤ → HandlerState N S R C D E → HandlerState N S R C D E
  update_upstream_latency upstream_id latency_ms s = record s {
    upstream_pool = update_latency s.upstream_pool upstream_id latency_ms;
  }
