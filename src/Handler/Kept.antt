-- ===== src/Handler/Kept.antt =====
-- src/dns/handler.rs: what every query leaves as it is, and how its counters and events go together.
use rust_dns_backend.Base.{
  ℕ, ◌+◌, ◌%◌, ◌^◌, ◌≡◌, refl, ◌∙◌, inl, inr, List, [], ◌∷◌, ◌++◌, arith, Option-cases, length,
  length-append,
}
use rust_dns_backend.Text.{Text, Unicode}
use rust_dns_backend.Dns.{Query, Message, Hickory}
use rust_dns_backend.Cache.{CacheEntry, MokaCrate}
use rust_dns_backend.Client.{ClientConfig}
use rust_dns_backend.Metrics.{fetch_add_one, inc_blocked, inc_allowed, inc_cached}
use rust_dns_backend.Resolver.{LookupCrate, Resolved, resolve}
use rust_dns_backend.Resolver.Config.{ConfigCrate}
use rust_dns_backend.Handler.State.{HandlerState, HandlerEnv, log_query, resolver_key}
use rust_dns_backend.Handler.Steps.{
  answer_rewritten, answer_blocked, answer_cached, answer_resolved, get_or_create_client_resolver,
  resolve_query,
}

module _ {N S R C D E : Type 0} where
  -- The total is the sum of the three counters and the number of events, up to the wrap of a counter.
  pub record IsBalanced (s : HandlerState N S R C D E) : Type 0 where
    pub counted :
        s.metrics.queries_total
        ≡ (s.metrics.queries_blocked + (s.metrics.queries_allowed + s.metrics.queries_cached))
          % 2 ^ 64
    pub reported : s.metrics.queries_total ≡ length s.events % 2 ^ 64

  -- The parts that only the API changes stay, and so does the balance.
  pub record Kept (s s' : HandlerState N S R C D E) : Type 0 where
    pub same_filter : s'.filter ≡ s.filter
    pub same_pool : s'.upstream_pool ≡ s.upstream_pool
    pub same_acl : s'.acl ≡ s.acl
    pub same_catalog : s'.app_catalog ≡ s.app_catalog
    pub balanced : IsBalanced s → IsBalanced s'

  pub Kept-refl : (s : HandlerState N S R C D E) → Kept s s
  Kept-refl s = record {
    same_filter = refl;
    same_pool = refl;
    same_acl = refl;
    same_catalog = refl;
    balanced = λ b. b;
  }

  pub Kept-trans : {a b c : HandlerState N S R C D E} → Kept a b → Kept b c → Kept a c
  Kept-trans k j = record {
    same_filter = j.same_filter ∙ k.same_filter;
    same_pool = j.same_pool ∙ k.same_pool;
    same_acl = j.same_acl ∙ k.same_acl;
    same_catalog = j.same_catalog ∙ k.same_catalog;
    balanced = λ b. j.balanced (k.balanced b);
  }

add_one_reported :
    {A : Type 0} (total : ℕ) (xs : List A) (x : A)
    → total ≡ length xs % 2 ^ 64
    → fetch_add_one total ≡ length (xs ++ x ∷ []) % 2 ^ 64
unfolding fetch_add_one
add_one_reported total xs x h = omega (arith, length-append xs (x ∷ []))

add_one_first :
    (total b a c : ℕ)
    → total ≡ (b + (a + c)) % 2 ^ 64
    → fetch_add_one total ≡ (fetch_add_one b + (a + c)) % 2 ^ 64
unfolding fetch_add_one
add_one_first total b a c h = omega arith

add_one_second :
    (total b a c : ℕ)
    → total ≡ (b + (a + c)) % 2 ^ 64
    → fetch_add_one total ≡ (b + (fetch_add_one a + c)) % 2 ^ 64
unfolding fetch_add_one
add_one_second total b a c h = omega arith

add_one_third :
    (total b a c : ℕ)
    → total ≡ (b + (a + c)) % 2 ^ 64
    → fetch_add_one total ≡ (b + (a + fetch_add_one c)) % 2 ^ 64
unfolding fetch_add_one
add_one_third total b a c h = omega arith

module _ ⦃u : Unicode⦄ ⦃hickory : Hickory⦄ {N S R C D E : Type 0} (env : HandlerEnv R)
    (client_ip : Text) (q : Query) (s : HandlerState N S R C D E) where
  pub answer_rewritten-Kept : (answer : Text) → Kept s (answer_rewritten env client_ip q answer s)
  unfolding answer_rewritten log_query inc_allowed
  answer_rewritten-Kept answer = record {
    same_filter = refl;
    same_pool = refl;
    same_acl = refl;
    same_catalog = refl;
    balanced = λ b. record {
      counted =
          add_one_second s.metrics.queries_total s.metrics.queries_blocked s.metrics.queries_allowed
            s.metrics.queries_cached b.counted;
      reported = add_one_reported s.metrics.queries_total s.events _ b.reported;
    };
  }

  pub answer_blocked-Kept : Kept s (answer_blocked env client_ip q s)
  unfolding answer_blocked log_query inc_blocked
  answer_blocked-Kept = record {
    same_filter = refl;
    same_pool = refl;
    same_acl = refl;
    same_catalog = refl;
    balanced = λ b. record {
      counted =
          add_one_first s.metrics.queries_total s.metrics.queries_blocked s.metrics.queries_allowed
            s.metrics.queries_cached b.counted;
      reported = add_one_reported s.metrics.queries_total s.events _ b.reported;
    };
  }

  pub answer_cached-Kept : Kept s (answer_cached env client_ip q s)
  unfolding answer_cached log_query inc_cached
  answer_cached-Kept = record {
    same_filter = refl;
    same_pool = refl;
    same_acl = refl;
    same_catalog = refl;
    balanced = λ b. record {
      counted =
          add_one_third s.metrics.queries_total s.metrics.queries_blocked s.metrics.queries_allowed
            s.metrics.queries_cached b.counted;
      reported = add_one_reported s.metrics.queries_total s.events _ b.reported;
    };
  }

  pub answer_resolved-Kept :
      ⦃cache : MokaCrate CacheEntry C⦄ (r : Resolved) (m : Message)
      → Kept s (answer_resolved env client_ip q r m s)
  unfolding answer_resolved log_query inc_allowed
  answer_resolved-Kept r m = record {
    same_filter = refl;
    same_pool = refl;
    same_acl = refl;
    same_catalog = refl;
    balanced = λ b. record {
      counted =
          add_one_second s.metrics.queries_total s.metrics.queries_blocked s.metrics.queries_allowed
            s.metrics.queries_cached b.counted;
      reported = add_one_reported s.metrics.queries_total s.events _ b.reported;
    };
  }

  module _ ⦃config : ConfigCrate⦄ ⦃resolvers : MokaCrate R E⦄ where
    get_or_create-Kept : (urls : List Text) → Kept s (get_or_create_client_resolver env urls s).1
    unfolding get_or_create_client_resolver
    get_or_create-Kept urls =
        elim (Option-cases (resolvers.cache_get env.now (resolver_key urls) s.client_resolvers)) [
          | inl e ↦
              rw (e, get_or_create_client_resolver)
                (record {
                  same_filter = refl;
                  same_pool = refl;
                  same_acl = refl;
                  same_catalog = refl;
                  balanced = λ b. record { counted = b.counted; reported = b.reported };
                })
          | inr (r, e) ↦ rw (e, get_or_create_client_resolver) (Kept-refl s)
        ]

    pub resolve_query-Kept :
        ⦃client : LookupCrate R⦄ (c : ClientConfig S) (request : Message)
        → Kept s (resolve_query env c q request s).1
    unfolding resolve_query
    resolve_query-Kept c request = elim (Option-cases c.upstream_urls) [
      | inl e ↦ rw e (Kept-refl s)
      | inr (urls, e) ↦
          elim (Option-cases
            (resolve (get_or_create_client_resolver env urls s).0 q.name q.query_type request)) [
              | inl k ↦ rw (e, resolve_query) (rw k (get_or_create-Kept urls))
              | inr (r, k) ↦ rw (e, resolve_query) (rw k (get_or_create-Kept urls))
            ]
    ]
