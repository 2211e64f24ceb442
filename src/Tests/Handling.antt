-- ===== src/Tests/Handling.antt =====
-- src/dns/handler.rs: queries answered at fixed inputs.
use rust_dns_backend.Base.{
  ℕ, ◌+◌, ◌<◌, ◌≡◌, refl, inl, true, false, none, some, List, [], ◌∷◌, here, pos, ◌≢◌, there, ◌*◌,
  arith,
}
use rust_dns_backend.Text.{Text, codes, text_eq, trim_end, to_lowercase}
use rust_dns_backend.Net.{v4, parse_ip}
use rust_dns_backend.Map.{Map, map_get, map_insert}
use rust_dns_backend.Acl.Laws.{Covers}
use rust_dns_backend.Rules.Decide.{Exempt, match_domain_lem}
use rust_dns_backend.Dns.{Bytes, Query, a, Message, response, nx_domain, refused as refused_code}
use rust_dns_backend.Cache.{
  CacheEntry, cache_key, get, set_with_ttl, clamp_ttl, expire_after_create,
}
use rust_dns_backend.Rules.{
  new_rules, add_rule, blocked, match_domain, query_name, build, add_rules,
}
use rust_dns_backend.Rules.Forms.{block_rule}
use rust_dns_backend.Filter.{
  FilterDb, FilterEngine, reload, load, parental_rules, current_rules, is_on, is_current,
}
use rust_dns_backend.Client.{
  ClientConfig, ClientDb, default_config, resolve_client_config, find_client,
}
use rust_dns_backend.Resolver.{resolve, lookup_response}
use rust_dns_backend.Pool.{pool_resolve, try_nodes, nodes_to_try, shuffle_groups, priority_first}
use rust_dns_backend.Handler.State.{log_query, HandlerState, HandlerEnv}
use rust_dns_backend.Handler.Steps.{answer_resolved, resolve_query}
use rust_dns_backend.Handler.Handle.{get_client_config, handle_miss, handle_allowed, handle}
use rust_dns_backend.Handler.Kept.{Kept}
use rust_dns_backend.Handler.Always.{handle-Kept}
use rust_dns_backend.Handler.Order.{handle-refused, handle-blocked}
use rust_dns_backend.Handler.Replay.{handle_allowed-handle_allowed}
use rust_dns_backend.Tests.Fixtures.{
  ascii, literal_regex, host_nets, responses, client_configs, client_resolvers, timed_cache_laws,
  wire, lookups, configs, asked, read_entry, next_deadline, differ,
}
use rust_dns_backend.Tests.Rules.{example_com, valid_example, normal_example, below_example}
use rust_dns_backend.Tests.Pools.{no_shuffle}

abbrev pub State : Type 0
State =
    HandlerState ℕ (List Text) ℕ (Map (ℕ × CacheEntry)) (Map (ℕ × ClientConfig (List Text)))
      (Map (ℕ × ℕ))

-- `example.com` is blocked, 10.0.0.2 is denied, and the one upstream answers.
abbrev pub s : State
s = record {
  filter = record { rules = (add_rule new_rules (block_rule example_com)).0; rewrites = [] };
  upstream_pool = record {
    nodes =
        record {
          model = record {
            id = codes "1";
            name = codes "one";
            addresses = codes "[]";
            priority = pos 1;
            is_active = true;
            health_check_enabled = true;
            failover_enabled = true;
            health_check_timeout = pos 500;
            health_status = codes "healthy";
          };
          resolver = 4;
          last_latency_ms = pos 0;
        }
        ∷ [];
    strategy = priority_first;
  };
  acl = record { allowed_nets = []; denied_nets = 167772162 ∷ [] };
  client_resolvers = [];
  cache = [];
  client_config_cache = [];
  metrics = record {
    queries_total = 0;
    queries_blocked = 0;
    queries_allowed = 0;
    queries_cached = 0;
  };
  app_catalog = [];
  query_log = [];
  events = [];
}

abbrev pub client_db : ClientDb
client_db = record {
  clients = some [];
  group_rules = λ id. none;
  group_rewrites = λ id. some ((codes "NAS.lan", codes "10.0.0.3") ∷ []);
  json_values = λ s. none;
  json_strings = λ s. none;
}

abbrev env : HandlerEnv ℕ
env = record {
  prefer_ipv4 = false;
  rewrite_ttl = 30;
  lookup_host = λ s. none;
  connect = λ servers. 4;
  shuffle = no_shuffle;
  client_db = client_db;
  now = 100;
  time = codes "2026";
  elapsed_ns = 5;
  upstream_ns = 4;
  has_room = true;
}

-- The bytes of `asked`.
abbrev datagram : Bytes
datagram = 0 ∷ 7 ∷ []

abbrev local_ip : Text
local_ip = codes "10.0.0.1"

abbrev pub ads : Query
ads = record { name = codes "ads.example.com."; query_type = a }

handle-Kept_example : Kept s (handle host_nets env datagram local_ip s).1
handle-Kept_example = handle-Kept host_nets env local_ip datagram s

denied_ip_run : parse_ip (codes "10.0.0.2") ≡ some (v4 167772162)
unfolding parse_ip
denied_ip_run = refl

handle-refused_example :
    (m : Message) × (handle host_nets env datagram (codes "10.0.0.2") s ≡ (wire.to_vec m, s))
    × (m.message_type ≡ response)
    × (m.response_code ≡ refused_code)
    × (m.id ≡ 7)
    × (m.answers ≡ [])
handle-refused_example =
    handle-refused host_nets env (codes "10.0.0.2") datagram asked (v4 167772162) s refl
      denied_ip_run (inl (167772162, here, refl))

local_ip_run : parse_ip local_ip ≡ some (v4 167772161)
unfolding parse_ip
local_ip_run = refl

not_denied : ¬ Covers ⦃ipnet = host_nets⦄ s.acl.denied_nets (v4 167772161)
not_denied (n, here, h) = cc
not_denied (n, there i, h) = elim i [ ]

-- One rule, and a rewrite of another name.
abbrev db : FilterDb
db = record {
  custom_rules =
      some (record { rule = block_rule example_com; is_enabled = true; expires_at = none } ∷ []);
  filter_list_count = some 0;
  dns_rewrites = some ((codes "nas.lan", codes "10.0.0.3") ∷ []);
  setting = λ key. none;
  parental_control_categories = none;
  json_strings = λ t. none;
  now_rfc3339 = codes "2026";
  later = λ t u. false;
}

abbrev no_engine : FilterEngine (List Text)
no_engine = record { rules = new_rules; rewrites = [] }

abbrev filtering : State
filtering = record s { filter = (reload db no_engine).1 }

loaded_run : reload db no_engine ≡ (true, filtering.filter)
unfolding reload load parental_rules
loaded_run = refl

config_run :
    ((get_client_config host_nets env local_ip filtering).0.filter_enabled ≡ true)
    × ((get_client_config host_nets env local_ip filtering).0.group_ruleset ≡ none)
    × ((get_client_config host_nets env local_ip filtering).0.group_rewrites ≡ none)
unfolding get_client_config resolve_client_config read_entry map_get find_client
config_run = (refl, refl, refl)

unlisted : codes "nas.lan" ≢ codes "ads.example.com"
unlisted = differ (codes "nas.lan") (codes "ads.example.com") (unfold text_eq in refl)

filtering_run : match_domain filtering.filter.rules (codes "ads.example.com") ≡ blocked
unfolding reload load parental_rules current_rules match_domain build add_rules add_rule new_rules
    block_rule trim_end
filtering_run = refl

not-Exempt : ¬ Exempt filtering.filter.rules (query_name (trim_end b'.' ads.name))
unfolding trim_end
not-Exempt x =
    let run = filtering_run in
    let e = (match_domain_lem filtering.filter.rules (codes "ads.example.com")).0.1 x in cc

handle-blocked_example :
    (m : Message) × ((handle host_nets env datagram local_ip filtering).0 ≡ wire.to_vec m)
    × (m.message_type ≡ response)
    × (m.response_code ≡ nx_domain)
    × (m.id ≡ 7)
    × (m.queries ≡ ads ∷ [])
    × (m.answers ≡ [])
    × ((handle host_nets env datagram local_ip filtering).1.cache ≡ filtering.cache)
    × ((handle host_nets env datagram local_ip filtering).1.client_resolvers
        ≡ filtering.client_resolvers)
    × ((handle host_nets env datagram local_ip filtering).1.metrics.queries_blocked ≡ 1)
unfolding is_on to_lowercase trim_end is_current query_name
handle-blocked_example =
    handle-blocked host_nets env local_ip datagram asked ads [] (v4 167772161) filtering example_com
      db no_engine
      (record { rule = block_rule example_com; is_enabled = true; expires_at = none } ∷ [])
      (record { rule = block_rule example_com; is_enabled = true; expires_at = none })
      ((codes "nas.lan", codes "10.0.0.3") ∷ []) refl refl refl refl local_ip_run
      (not_denied, inl refl) config_run.0 config_run.1 config_run.2 loaded_run refl refl
      (unlisted, tt) refl here refl refl valid_example normal_example below_example not-Exempt

abbrev pub default : ClientConfig (List Text)
default = default_config

abbrev answer : Bytes
answer = 0 ∷ 7 ∷ 1 ∷ []

abbrev later_state : State
later_state = (handle_allowed host_nets env default local_ip asked ads s).1

abbrev later_env : HandlerEnv ℕ
later_env = record env { now = 130 }

abbrev again : Query
again = record { name = codes "ADS.example.com."; query_type = a }

absent_run : get 100 s.cache ads.name ads.query_type ≡ none
unfolding get read_entry map_get
absent_run = refl

first_run : (handle_allowed host_nets env default local_ip asked ads s).0 ≡ some answer
unfolding handle_allowed get read_entry map_get handle_miss resolve_query pool_resolve try_nodes
    nodes_to_try shuffle_groups resolve lookup_response
first_run = refl

hit_run : get 130 later_state.cache again.name again.query_type ≡ some answer
unfolding handle_allowed handle_miss resolve_query get read_entry next_deadline map_get
    answer_resolved log_query set_with_ttl map_insert cache_key expire_after_create clamp_ttl
    pool_resolve try_nodes nodes_to_try shuffle_groups resolve lookup_response
hit_run = refl

key_run : cache_key ads.name a ≡ cache_key again.name a
unfolding cache_key
key_run = refl

handle_allowed-handle_allowed_example :
    (high low : ℕ) × ((handle_allowed host_nets later_env default local_ip
        (record asked { id = 9 })
        again
        later_state).0
      ≡ some (high ∷ low ∷ 1 ∷ []))
    × (high < 256)
    × (low < 256)
    × (high * 256 + low ≡ 9)
    × (130 < 100 + 86400)
handle_allowed-handle_allowed_example =
    handle_allowed-handle_allowed host_nets (timed_cache_laws expire_after_create) env later_env
      default default local_ip local_ip asked (record asked { id = 9 }) ads again s later_state
      absent_run first_run refl key_run hit_run (omega arith)
