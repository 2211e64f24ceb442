-- ===== src/Lib.antt =====
-- A DNS server that filters (src/dns, with src/main.rs, src/metrics.rs and parts of src/db) and the API
-- that administers it (src/api, src/auth): the state of each part as a record, its operations as
-- functions, and what these functions guarantee.
--
-- How the parts work together. `DnsHandler` (src/dns/handler.rs) takes a datagram and the address of the
-- client. The ACL (src/dns/acl.rs) may refuse it. The client's configuration, with the rules and
-- rewrites of its groups, is looked up and kept for a minute. A rewrite answers at once; otherwise the
-- rules of the groups and then those of the filter engine (src/dns/filter.rs), which are rule sets
-- (src/dns/rules.rs), may block the name; otherwise the response cache (src/dns/cache.rs) may answer;
-- otherwise the client's own resolver (src/dns/resolver.rs) or the upstream pool
-- (src/dns/upstream_pool.rs) does. The health check task of src/main.rs probes the pool and reloads it;
-- that of src/api/mod.rs probes the rows that the pool is made of, and writes their status.
--
-- The API lets a client in by a token that a login gave (src/auth/jwt.rs, src/api/handlers/auth.rs,
-- src/api/middleware). Its handlers store rules in the table `custom_rules`, by hand or from a file
-- (src/api/handlers/rules.rs), subscriptions replace the rules of a list in it (src/dns/subscription.rs),
-- and the filter engine loads the table again. src/api/handlers/query_log_advanced.rs searches the log
-- that the query log writer fills.
--
-- Files, each with its lemmas in the files of its folder:
--   Base, Text, Map, Net - shared helpers; Rust's operations on str and char; HashMap; the standard
--     library's parsers of addresses.
--   RuleSyntax, Rules - src/dns/rules.rs: the parsers of rule lines (parse_adguard_domain,
--     parse_adguard_wildcard_pattern, wildcard_to_regex, parse_hosts_line, is_valid_domain), and
--     RuleSet (add_rule, build, match_domain).
--   Acl - src/dns/acl.rs. Cache - src/dns/cache.rs. Metrics - src/metrics.rs.
--   Dns - the messages of hickory_proto. Resolver - src/dns/resolver.rs: resolve; Resolver/Url: the
--     URL parsers; Resolver/Config: with_upstreams.
--   Pool - src/dns/upstream_pool.rs, with the rows of src/db/models/upstream.rs.
--   Health - run_upstream_health_check_task of src/main.rs and health_check_all of the pool;
--     Health/Probe: the task of src/api/mod.rs that probes every active row.
--   Filter - src/dns/filter.rs. AppCatalog - src/db/app_catalog_cache.rs.
--   Client - resolve_client_config and the loaders of group rules in src/dns/handler.rs.
--   Handler - src/dns/handler.rs: Handler/State the state, Handler/Responses the responses it makes,
--     Handler/Steps the steps of handle_internal, Handler/Handle its composition and the operations
--     that the API calls.
--   QueryLog - src/db/query_log_writer.rs: the batches, and the detector of bursts of blocked queries.
--   Error - src/error.rs. Json - the values of serde_json.
--   LogQuery - src/api/handlers/query_log_advanced.rs: LogQuery itself the filters as conditions,
--     LogQuery/Relative parse_relative_time, LogQuery/Queries the statements of list_advanced, aggregate
--     and top.
--   Auth - src/auth/jwt.rs, src/api/middleware/auth.rs and rbac.rs, and src/api/handlers/auth.rs;
--     Auth/Limiter the failures of each address; Auth/Tickets the tickets of src/api/handlers/ws.rs.
--   Subscription - src/dns/subscription.rs: Subscription itself the list parsers, Subscription/Guard the
--     guard on URLs and the fetch, Subscription/Sync the transaction of sync_filter_list.
--   Validators - src/api/validators/domain.rs and ip.rs; Validators/Rule: rule.rs.
--   RuleApi - src/api/handlers/rules.rs: the handlers that change the table; RuleApi/Export and
--     RuleApi/Import the files. RewriteApi - src/api/handlers/rewrites.rs.
--   UpstreamApi - src/api/handlers/upstreams.rs: create, update, delete, test and trigger_failover.
--   GroupApi - src/api/handlers/client_groups.rs: the batches of members, and delete_group;
--     GroupApi/Bindings the batches of rules.
--   ClientIp - src/api/middleware/client_ip.rs, and extract_ip of audit.rs. Audit - the rest of
--     src/api/middleware/audit.rs.
--   Tests - stand-ins for the crates, runs at fixed inputs, and each property at a concrete input.
--
-- Conventions. A text is a list of code points; on ASCII all operations compute, and the tables of
-- Unicode are the instance Unicode. The crates regex, ipnet, moka and hickory are instance records, with
-- their documented behaviour as hypotheses where a theorem needs it (MokaLaws, FromIpsLaw, ShuffleLaw).
-- A hash set is the list of its members and a hash map an association list. Counters wrap at 2 ^ 64. A
-- Result is an Option where only success matters.
--
-- Fuel. walk_parents climbs from a name to its parents on fuel one above the length of the name, and
-- each step shortens it; shuffle_groups takes at least one node a round and has as much fuel as there
-- are nodes; decimal has fuel above the number; the loop of pg_numbered has one more round than its text
-- has characters, and each round takes away a mark. The theorems about them are free of fuel.
--
-- Not modelled: sockets and workers (src/dns/server.rs), the other handlers of the API, the rendering of
-- rows as JSON, the rows of the audit log, the log of latencies, configuration and shutdown. SQL
-- is represented by the rows that a query gives, or its failure; time and randomness are inputs.
pub mod Base
pub mod Text
pub mod Map
pub mod Net
pub mod RuleSyntax
pub mod Rules
pub mod Acl
pub mod Dns
pub mod Cache
pub mod Resolver
pub mod Pool
pub mod Health
pub mod AppCatalog
pub mod Filter
pub mod Metrics
pub mod Client
pub mod Handler
pub mod QueryLog
pub mod Error
pub mod Json
pub mod LogQuery
pub mod Auth
pub mod Subscription
pub mod Validators
pub mod RuleApi
pub mod RewriteApi
pub mod UpstreamApi
pub mod GroupApi
pub mod ClientIp
pub mod Audit
pub mod Tests
