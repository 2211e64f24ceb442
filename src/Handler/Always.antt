-- ===== src/Handler/Always.antt =====
-- src/dns/handler.rs: what `handle_internal` keeps on every branch.
use rust_dns_backend.Base.{refl, inl, inr, Bool-cases, Option-cases}
use rust_dns_backend.Text.{Text, Unicode}
use rust_dns_backend.Acl.{IpnetCrate}
use rust_dns_backend.Dns.{Bytes, Query, Message, Hickory}
use rust_dns_backend.Cache.{CacheEntry, MokaCrate, get}
use rust_dns_backend.Rules.{RegexCrate}
use rust_dns_backend.Client.{ClientConfig}
use rust_dns_backend.Resolver.{LookupCrate}
use rust_dns_backend.Resolver.Config.{ConfigCrate}
use rust_dns_backend.Handler.State.{HandlerState, HandlerEnv}
use rust_dns_backend.Handler.Steps.{
  is_rejected, is_query, first_query, rewritten, is_filtered, resolve_query,
}
use rust_dns_backend.Handler.Handle.{
  get_client_config, handle_miss, handle_allowed, handle_configured, handle_request, handle,
}
use rust_dns_backend.Handler.Kept.{
  Kept, Kept-refl, Kept-trans, answer_rewritten-Kept, answer_blocked-Kept, answer_cached-Kept,
  answer_resolved-Kept, resolve_query-Kept,
}

module _ {N S R C D E : Type 0} (ipnet : IpnetCrate N) (env : HandlerEnv R) (client_ip : Text) where
  get_client_config-Kept :
      ⦃u : Unicode⦄ ⦃configs : MokaCrate (ClientConfig S) D⦄ (s : HandlerState N S R C D E)
      → Kept s (get_client_config ipnet env client_ip s).1
  unfolding get_client_config
  get_client_config-Kept ⦃configs = configs⦄ s =
      elim (Option-cases (configs.cache_get env.now client_ip s.client_config_cache)) [
        | inl e ↦
            rw (e, get_client_config)
              (record {
                same_filter = refl;
                same_pool = refl;
                same_acl = refl;
                same_catalog = refl;
                balanced = λ b. record { counted = b.counted; reported = b.reported };
              })
        | inr (c, e) ↦ rw (e, get_client_config) (Kept-refl s)
      ]

  module _ ⦃u : Unicode⦄ ⦃hickory : Hickory⦄ ⦃re : RegexCrate S⦄ ⦃client : LookupCrate R⦄
      ⦃config : ConfigCrate⦄ ⦃cache : MokaCrate CacheEntry C⦄ ⦃resolvers : MokaCrate R E⦄ where
    handle_miss-Kept :
        (c : ClientConfig S) (request : Message) (q : Query) (s : HandlerState N S R C D E)
        → Kept s (handle_miss ipnet env c client_ip request q s).1
    unfolding handle_miss
    handle_miss-Kept c request q s =
        let k = resolve_query-Kept env client_ip q s c request in
        elim (Option-cases (resolve_query env c q request s).0) [
          | inl e ↦ rw (e, handle_miss) k
          | inr (r, e) ↦ elim (Option-cases (hickory.from_vec r.0)) [
            | inl j ↦ rw (e, handle_miss) (rw j k)
            | inr (m, j) ↦
                rw (e, handle_miss)
                  (rw j (
                    Kept-trans k (
                      answer_resolved-Kept env client_ip q (resolve_query env c q request s).1 r
                        m)))
          ]
        ]

    handle_configured-Kept :
        (c : ClientConfig S) (request : Message) (q : Query) (s : HandlerState N S R C D E)
        → Kept s (handle_configured ipnet env c client_ip request q s).1
    unfolding handle_configured handle_allowed
    handle_configured-Kept c request q s =
        elim (Option-cases (rewritten env.rewrite_ttl c s request q)) [
          | inr (r, e) ↦ rw (e, handle_configured) (answer_rewritten-Kept env client_ip q s r.1)
          | inl e ↦ elim (Bool-cases (is_filtered c s q.name)) [
            | inl k ↦ rw (e, k, handle_configured) (answer_blocked-Kept env client_ip q s)
            | inr k ↦ elim (Option-cases (get env.now s.cache q.name q.query_type)) [
              | inl j ↦
                  rw (e, k, j, handle_configured, handle_allowed) (handle_miss-Kept c request q s)
              | inr (bytes, j) ↦
                  rw (e, k, j, handle_configured, handle_allowed)
                    (answer_cached-Kept env client_ip q s)
            ]
          ]
        ]

    module _ ⦃configs : MokaCrate (ClientConfig S) D⦄ where
      handle_request-Kept :
          (request : Message) (s : HandlerState N S R C D E)
          → Kept s (handle_request ipnet env client_ip request s).1
      unfolding handle_request
      handle_request-Kept request s = elim (Bool-cases (is_rejected ipnet s client_ip)) [
        | inl e ↦ rw (e, handle_request) (Kept-refl s)
        | inr e ↦ elim (Bool-cases (is_query request)) [
          | inr k ↦ rw (e, k, handle_request) (Kept-refl s)
          | inl k ↦ elim (Option-cases (first_query request.queries)) [
            | inl j ↦ rw (e, k, j, handle_request) (Kept-refl s)
            | inr (q, j) ↦
                let (c, s') = get_client_config ipnet env client_ip s in
                rw (e, k, j, handle_request)
                  (Kept-trans (get_client_config-Kept s) (handle_configured-Kept c request q s'))
          ]
        ]
      ]

      -- Whatever arrives, the rules, the upstream pool, the ACL and the application catalogue stay, and
      -- if the counters were balanced, they still are: the total is the sum of the blocked, allowed and
      -- cached counts and the number of events sent, up to the wrap of 64 bits.
      pub handle-Kept :
          (datagram : Bytes) (s : HandlerState N S R C D E)
          → Kept s (handle ipnet env datagram client_ip s).1
      unfolding handle
      handle-Kept datagram s = elim (Option-cases (hickory.from_vec datagram)) [
        | inl e ↦ rw (e, handle) (Kept-refl s)
        | inr (request, e) ↦ rw (e, handle) (handle_request-Kept request s)
      ]
