-- ===== src/Handler/Steps.antt =====
-- src/dns/handler.rs, the steps of `handle_internal`: its tests, and what each kind of answer does
-- to the state.
use rust_dns_backend.Base.{
  ℕ, Bool, true, false, not, ◌&&◌, Option, none, some, List, [], ◌∷◌, if◌then◌else◌, head_or,
}
use rust_dns_backend.Text.{Text, Unicode, codes, trim_end}
use rust_dns_backend.Net.{parse_ip}
use rust_dns_backend.Map.{map_get}
use rust_dns_backend.Acl.{IpnetCrate, is_allowed}
use rust_dns_backend.Dns.{
  Bytes, query, op_query, a, aaaa, other_type, RecordType, Query, Message, Hickory,
}
use rust_dns_backend.Cache.{CacheEntry, MokaCrate, set_with_ttl}
use rust_dns_backend.Rules.{allowed, blocked, no_match, RegexCrate, match_domain}
use rust_dns_backend.Filter.{engine_is_blocked, check_rewrite}
use rust_dns_backend.Metrics.{inc_blocked, inc_allowed, inc_cached}
use rust_dns_backend.Client.{ClientConfig}
use rust_dns_backend.AppCatalog.{match_app}
use rust_dns_backend.Resolver.{LookupCrate, Resolved, resolve}
use rust_dns_backend.Resolver.Config.{ConfigCrate, with_upstreams}
use rust_dns_backend.Pool.{pool_resolve}
use rust_dns_backend.Handler.Responses.{rewrite_response, extract_answer}
use rust_dns_backend.Handler.State.{HandlerState, HandlerEnv, LogEntry, log_query, resolver_key}

unfoldable pub is_rejected :
    {N S R C D E : Type 0} → IpnetCrate N → HandlerState N S R C D E → Text → Bool
unfolding is_allowed
is_rejected ipnet s client_ip = elim (parse_ip client_ip) [
  | none ↦ false
  | some ip ↦ not (is_allowed ⦃ipnet = ipnet⦄ s.acl ip)
]

-- A query message with the opcode of a standard query.
unfoldable pub is_query : Message → Bool
is_query request =
    (elim request.message_type [ query ↦ true | _ ↦ false ])
    && (elim request.op_code [ op_query ↦ true | _ ↦ false ])

unfoldable pub first_query : List Query → Option Query
first_query [] = none
first_query (q ∷ qs) = some q

unfoldable pub is_address_type : RecordType → Bool
is_address_type a = true
is_address_type aaaa = true
is_address_type (other_type n) = false

-- `trim_end_matches('.')`
unfoldable pub domain_normalized : Text → Text
domain_normalized domain = trim_end b'.' domain

module _ ⦃u : Unicode⦄ {N S R C D E : Type 0} where
  -- The answer that a rewrite of the client's groups gives, or else a global one.
  unfoldable pub rewrite_answer : ClientConfig S → HandlerState N S R C D E → Text → Option Text
  rewrite_answer config s domain = elim config.group_rewrites [
    | none ↦ check_rewrite s.filter (domain_normalized domain)
    | some rewrites ↦ elim (map_get (domain_normalized domain) rewrites) [
      | some ans ↦ some ans
      | none ↦ check_rewrite s.filter (domain_normalized domain)
    ]
  ]

  -- The rewritten response with its answer, where the rewrite fits the query.
  unfoldable pub rewritten :
      ⦃hickory : Hickory⦄
      → ℕ
      → ClientConfig S
      → HandlerState N S R C D E
      → Message
      → Query
      → Option (Bytes × Text)
  rewritten rewrite_ttl config s request q = elim (rewrite_answer config s q.name) [
    | none ↦ none
    | some answer ↦
        if is_address_type q.query_type
        then (elim (rewrite_response rewrite_ttl request answer q.query_type) [
          | none ↦ none
          | some bytes ↦ some (bytes, answer)
        ])
        else none
  ]

  unfoldable pub is_filtered :
      ⦃re : RegexCrate S⦄ → ClientConfig S → HandlerState N S R C D E → Text → Bool
  is_filtered config s domain =
      if config.filter_enabled
      then (elim config.group_ruleset [
        | none ↦ engine_is_blocked s.filter (domain_normalized domain)
        | some rules ↦ elim (match_domain rules (domain_normalized domain)) [
          | blocked ↦ true
          | allowed ↦ false
          | no_match ↦ engine_is_blocked s.filter (domain_normalized domain)
        ]
      ])
      else false

module _ ⦃u : Unicode⦄ ⦃hickory : Hickory⦄ {N S R C D E : Type 0} (env : HandlerEnv R) where
  -- What the log says of every answered query.
  unfoldable pub log_entry : Text → Query → HandlerState N S R C D E → Text → LogEntry
  log_entry client_ip q s status = record {
    time = env.time;
    client_ip = client_ip;
    question = q.name;
    qtype = hickory.debug_type q.query_type;
    status = status;
    reason = none;
    answer = none;
    elapsed_ns = env.elapsed_ns;
    upstream_ns = none;
    upstream_name = none;
    app_id = match_app s.app_catalog (domain_normalized q.name);
  }

  unfoldable pub answer_rewritten :
      Text → Query → Text → HandlerState N S R C D E → HandlerState N S R C D E
  unfolding log_entry
  answer_rewritten client_ip q answer s =
      log_query env
        (record (log_entry client_ip q s (codes "allowed")) {
          reason = some (codes "rewrite");
          answer = some answer;
          upstream_name = some (codes "rewrite");
        })
        (record s { metrics = inc_allowed s.metrics })

  unfoldable pub answer_blocked : Text → Query → HandlerState N S R C D E → HandlerState N S R C D E
  unfolding log_entry
  answer_blocked client_ip q s =
      log_query env
        (record (log_entry client_ip q s (codes "blocked")) { reason = some (codes "filter_rule") })
        (record s { metrics = inc_blocked s.metrics })

  unfoldable pub answer_cached : Text → Query → HandlerState N S R C D E → HandlerState N S R C D E
  unfolding log_entry
  answer_cached client_ip q s =
      log_query env (log_entry client_ip q s (codes "cached"))
        (record s { metrics = inc_cached s.metrics })

  module _ ⦃cache : MokaCrate CacheEntry C⦄ where
    unfoldable pub answer_resolved :
        Text → Query → Resolved → Message → HandlerState N S R C D E → HandlerState N S R C D E
    unfolding log_entry
    answer_resolved client_ip q (bytes, min_ttl, upstream_name) message s =
        log_query env
          (record (log_entry client_ip q s (codes "allowed")) {
            answer = extract_answer message;
            upstream_ns = some env.upstream_ns;
            upstream_name = upstream_name;
          })
          (record s {
            cache = set_with_ttl env.now s.cache q.name q.query_type bytes min_ttl;
            metrics = inc_allowed s.metrics;
          })

  module _ ⦃config : ConfigCrate⦄ ⦃resolvers : MokaCrate R E⦄ where
    unfoldable pub get_or_create_client_resolver :
        List Text → HandlerState N S R C D E → R × HandlerState N S R C D E
    get_or_create_client_resolver upstreams s =
        elim (resolvers.cache_get env.now (resolver_key upstreams) s.client_resolvers) [
          | some r ↦ (r, s)
          | none ↦
              let r = env.connect (with_upstreams env.lookup_host env.prefer_ipv4 upstreams) in
              (
                r,
                record s {
                  client_resolvers =
                      resolvers.cache_insert env.now (resolver_key upstreams) r s.client_resolvers;
                },
              )
        ]

    -- By the client's own upstreams, under the name of the first, or else by the pool.
    unfoldable pub resolve_query :
        ⦃client : LookupCrate R⦄
        → ClientConfig S
        → Query
        → Message
        → HandlerState N S R C D E
        → Option Resolved × HandlerState N S R C D E
    resolve_query c q request s = elim c.upstream_urls [
      | none ↦ (pool_resolve env.shuffle s.upstream_pool q.name q.query_type request, s)
      | some upstreams ↦
          let (resolver, s') = get_or_create_client_resolver upstreams s in
          elim (resolve resolver q.name q.query_type request) [
            | none ↦ (none, s')
            | some (res, min_ttl, _) ↦
                (some (res, min_ttl, some (head_or upstreams (codes "custom"))), s')
          ]
    ]
