-- ===== src/Handler/Order.antt =====
-- src/dns/handler.rs: which test decides about a query: the ACL, then the rewrites, then the filter.
use rust_dns_backend.Base.{
  ◌+◌, ◌%◌, ◌^◌, List, [], ◌∷◌, All, In, ◌≢◌, ◌∙◌, is_nil, ◌≡◌, refl, ap, ◌⊎◌, inl, inr, true,
  false, none, some, arith, Bool-cases, Option-cases,
}
use rust_dns_backend.Text.{Text, Unicode, codes, to_lowercase, trim_end}
use rust_dns_backend.Net.{IpAddr, parse_ip}
use rust_dns_backend.Acl.{IpnetCrate, Acl, is_allowed}
use rust_dns_backend.Acl.Laws.{Covers, is_allowed_iff}
use rust_dns_backend.Dns.{
  Bytes, Query, Message, Hickory, response, query, op_query, nx_domain, new_message,
  refused as refused_code,
}
use rust_dns_backend.Cache.{CacheEntry, MokaCrate}
use rust_dns_backend.Rules.{RegexCrate, query_name}
use rust_dns_backend.RuleSyntax.{normalize_domain, is_valid_domain}
use rust_dns_backend.Rules.Match.{IsAncestor}
use rust_dns_backend.Rules.Decide.{Exempt}
use rust_dns_backend.Rules.Forms.{block_rule}
use rust_dns_backend.Filter.Rewrites.{last_answer-none}
use rust_dns_backend.Filter.Laws.{reload-blocks, reload-check_rewrite}
use rust_dns_backend.Client.{ClientConfig}
use rust_dns_backend.Filter.{
  FilterDb, FilterEngine, CustomRule, is_current, is_on, reload, engine_is_blocked, check_rewrite,
}
use rust_dns_backend.Metrics.{DnsMetrics, fetch_add_one, inc_blocked}
use rust_dns_backend.Resolver.{LookupCrate}
use rust_dns_backend.Resolver.Config.{ConfigCrate}
use rust_dns_backend.Handler.Responses.{refused, nxdomain}
use rust_dns_backend.Handler.State.{HandlerState, HandlerEnv, log_query}
use rust_dns_backend.Handler.Steps.{
  is_rejected, is_query, first_query, domain_normalized, rewritten, rewrite_answer, is_filtered,
  answer_blocked,
}
use rust_dns_backend.Handler.Handle.{get_client_config, handle_configured, handle_request, handle}
use rust_dns_backend.Handler.Filtered.{is_filtered_iff}

not_allowed :
    {N : Type 0} (ipnet : IpnetCrate N) (acl : Acl N) (ip : IpAddr)
    → Covers ⦃ipnet = ipnet⦄ acl.denied_nets ip
      ⊎ ((is_nil acl.allowed_nets ≡ false) × (¬ Covers ⦃ipnet = ipnet⦄ acl.allowed_nets ip))
    → is_allowed ⦃ipnet = ipnet⦄ acl ip ≡ false
not_allowed ipnet acl ip h = elim (Bool-cases (is_allowed ⦃ipnet = ipnet⦄ acl ip)) [
  | inr e ↦ e
  | inl e ↦
      let (n, a) = (is_allowed_iff ⦃ipnet = ipnet⦄ acl ip).0 e in
      elim h [
        | inl c ↦ absurd (n c)
        | inr (k, c) ↦ elim a [ inl j ↦ absurd (ground arith) | inr j ↦ absurd (c j) ]
      ]
]

module _ {N S R C D E : Type 0} (ipnet : IpnetCrate N) (env : HandlerEnv R) (client_ip : Text)
    ⦃u : Unicode⦄ ⦃hickory : Hickory⦄ ⦃re : RegexCrate S⦄ ⦃client : LookupCrate R⦄
    ⦃config : ConfigCrate⦄ ⦃cache : MokaCrate CacheEntry C⦄ ⦃resolvers : MokaCrate R E⦄
    ⦃configs : MokaCrate (ClientConfig S) D⦄ where
  -- A client whose address a denied network holds, or no allowed one where some are listed, gets a
  -- response with the code REFUSED, the id of its message and no answers, for any datagram that is a
  -- DNS message, and nothing is looked up, counted, logged or changed.
  pub handle-refused :
      (datagram : Bytes) (request : Message) (ip : IpAddr) (s : HandlerState N S R C D E)
      → hickory.from_vec datagram ≡ some request
      → parse_ip client_ip ≡ some ip
      → Covers ⦃ipnet = ipnet⦄ s.acl.denied_nets ip
        ⊎ ((is_nil s.acl.allowed_nets ≡ false) × (¬ Covers ⦃ipnet = ipnet⦄ s.acl.allowed_nets ip))
      → (m : Message) × (handle ipnet env datagram client_ip s ≡ (hickory.to_vec m, s))
        × (m.message_type ≡ response)
        × (m.response_code ≡ refused_code)
        × (m.id ≡ request.id)
        × (m.answers ≡ [])
  unfolding handle handle_request is_rejected refused
  handle-refused datagram request ip s d p a = (
    record new_message { id = request.id; message_type = response; response_code = refused_code },
    rw (d, handle) (rw (p, handle_request, is_rejected) (rw (not_allowed ipnet s.acl ip a) refl)),
    refl,
    refl,
    refl,
    refl,
  )

  looked_up :
      (s : HandlerState N S R C D E)
      → ((get_client_config ipnet env client_ip s).1.cache ≡ s.cache)
        × ((get_client_config ipnet env client_ip s).1.client_resolvers ≡ s.client_resolvers)
        × ((get_client_config ipnet env client_ip s).1.metrics ≡ s.metrics)
  unfolding get_client_config
  looked_up s = elim (Option-cases (configs.cache_get env.now client_ip s.client_config_cache)) [
    | inl e ↦ rw (e, get_client_config) (refl, refl, refl)
    | inr (c, e) ↦ rw (e, get_client_config) (refl, refl, refl)
  ]

  accepted :
      (s : HandlerState N S R C D E) (ip : IpAddr)
      → parse_ip client_ip ≡ some ip
      → (¬ Covers ⦃ipnet = ipnet⦄ s.acl.denied_nets ip)
        × ((is_nil s.acl.allowed_nets ≡ true) ⊎ Covers ⦃ipnet = ipnet⦄ s.acl.allowed_nets ip)
      → is_rejected ipnet s client_ip ≡ false
  unfolding is_rejected
  accepted s ip p a = rw (p, is_rejected) (rw ((is_allowed_iff ⦃ipnet = ipnet⦄ s.acl ip).1 a) refl)

  kept_filter :
      (s : HandlerState N S R C D E) → (get_client_config ipnet env client_ip s).1.filter ≡ s.filter
  unfolding get_client_config
  kept_filter s = elim (Option-cases (configs.cache_get env.now client_ip s.client_config_cache)) [
    | inl e ↦ rw (e, get_client_config) refl
    | inr (c, e) ↦ rw (e, get_client_config) refl
  ]

  not_rewritten :
      (c : ClientConfig S) (s : HandlerState N S R C D E) (request : Message) (q : Query)
      → c.group_rewrites ≡ none
      → check_rewrite s.filter (domain_normalized q.name) ≡ none
      → rewritten env.rewrite_ttl c s request q ≡ none
  unfolding rewritten rewrite_answer
  not_rewritten c s request q g h = rw (g, rewritten, rewrite_answer) (rw h refl)

  handle-answer_blocked :
      (datagram : Bytes) (request : Message) (q : Query) (s : HandlerState N S R C D E)
      → hickory.from_vec datagram ≡ some request
      → is_rejected ipnet s client_ip ≡ false
      → is_query request ≡ true
      → first_query request.queries ≡ some q
      → rewritten env.rewrite_ttl
          (get_client_config ipnet env client_ip s).0
          (get_client_config ipnet env client_ip s).1
          request
          q
        ≡ none
      → is_filtered
          (get_client_config ipnet env client_ip s).0
          (get_client_config ipnet env client_ip s).1
          q.name
        ≡ true
      → handle ipnet env datagram client_ip s ≡ (
        nxdomain request,
        answer_blocked env client_ip q (get_client_config ipnet env client_ip s).1,
      )
  unfolding handle handle_request handle_configured
  handle-answer_blocked datagram request q s d r i f w b =
      rw (d, handle) (rw (r, i, f, handle_request) (rw (w, b, handle_configured) refl))

  -- From a row of the rules to the answer of a query: where the filter engine has read a rule `||d^`
  -- that is enabled and not expired, a standard query for `d` or a name below it is answered with
  -- NXDOMAIN, its own id and question and no answers, whatever the cache and the upstreams hold; the
  -- response cache and the client resolvers stay as they are, and one more query counts as blocked.
  -- The ACL lets the client in, its configuration has filtering on and neither rules nor rewrites of
  -- groups, no rewrite that the engine read is for the name, safe search is off, no allow rule covers
  -- the name, and `d` is a valid domain in normal form. The name is the query without its trailing
  -- dots, in lower case.
  pub handle-blocked :
      (datagram : Bytes) (request : Message) (q : Query) (others : List Query) (ip : IpAddr)
      (s : HandlerState N S R C D E) (d : Text) (db : FilterDb) (before : FilterEngine S)
      (rows : List CustomRule) (r : CustomRule) (rewrites : List (Text × Text))
      → hickory.from_vec datagram ≡ some request
      → request.message_type ≡ query
      → request.op_code ≡ op_query
      → request.queries ≡ q ∷ others
      → parse_ip client_ip ≡ some ip
      → (¬ Covers ⦃ipnet = ipnet⦄ s.acl.denied_nets ip)
        × ((is_nil s.acl.allowed_nets ≡ true) ⊎ Covers ⦃ipnet = ipnet⦄ s.acl.allowed_nets ip)
      → (get_client_config ipnet env client_ip s).0.filter_enabled ≡ true
      → (get_client_config ipnet env client_ip s).0.group_ruleset ≡ none
      → (get_client_config ipnet env client_ip s).0.group_rewrites ≡ none
      → reload db before ≡ (true, s.filter)
      → db.dns_rewrites ≡ some rewrites
      → is_on db (codes "safe_search_enabled") ≡ false
      → All
          (λ (row : Text × Text). to_lowercase row.0 ≢ to_lowercase (trim_end b'.' q.name))
          rewrites
      → db.custom_rules ≡ some rows
      → In r rows
      → is_current db r ≡ true
      → r.rule ≡ block_rule d
      → is_valid_domain d ≡ true
      → normalize_domain d ≡ d
      → IsAncestor d (query_name (trim_end b'.' q.name))
      → ¬ Exempt s.filter.rules (query_name (trim_end b'.' q.name))
      → (m : Message) × ((handle ipnet env datagram client_ip s).0 ≡ hickory.to_vec m)
        × (m.message_type ≡ response)
        × (m.response_code ≡ nx_domain)
        × (m.id ≡ request.id)
        × (m.queries ≡ request.queries)
        × (m.answers ≡ [])
        × ((handle ipnet env datagram client_ip s).1.cache ≡ s.cache)
        × ((handle ipnet env datagram client_ip s).1.client_resolvers ≡ s.client_resolvers)
        × ((handle ipnet env datagram client_ip s).1.metrics.queries_blocked
            ≡ (s.metrics.queries_blocked + 1) % 2 ^ 64)
  unfolding answer_blocked log_query inc_blocked fetch_add_one nxdomain is_query first_query
      domain_normalized
  handle-blocked datagram request q others ip s d db before rows r rewrites decoded type code
        queries parsed let_in enabled no_rules no_rewrites loaded read safe free rows_read listed
        current is_rule valid normal below not_exempt =
      let c = (get_client_config ipnet env client_ip s).0 in
      let s' = (get_client_config ipnet env client_ip s).1 in
      let name = trim_end b'.' q.name in
      let none_found : check_rewrite s.filter name ≡ none =
        reload-check_rewrite db before s.filter rewrites name loaded read
        ∙ rw safe (last_answer-none (to_lowercase name) rewrites free) in
      let blocks : engine_is_blocked s.filter name ≡ true =
        reload-blocks d valid normal db before s.filter rows r name loaded rows_read listed current
          is_rule below not_exempt in
      let run =
        handle-answer_blocked datagram request q s decoded (accepted s ip parsed let_in)
          (rw (type, code) refl) (rw queries refl)
          (not_rewritten c s' request q no_rewrites (rw (kept_filter s) none_found))
          ((is_filtered_iff c s' q.name).1
            (enabled, inr (rw (kept_filter s) blocks, inl no_rules))) in
      let (same_cache, same_resolvers, same_metrics) = looked_up s in
      rw run (
        _,
        refl,
        refl,
        refl,
        refl,
        refl,
        refl,
        same_cache,
        same_resolvers,
        ap (λ (m : DnsMetrics). (m.queries_blocked + 1) % 2 ^ 64) same_metrics,
      )
