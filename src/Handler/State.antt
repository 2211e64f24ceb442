-- ===== src/Handler/State.antt =====
-- src/dns/handler.rs: the state of `DnsHandler`, its log, and the key of a client's resolver.
use rust_dns_backend.Base.{
  ℤ, ℕ, Bool, true, false, ◌||◌, ◌&&◌, ◌==◌, ltb, Option, List, [], ◌∷◌, ◌++◌, if◌then◌else◌,
}
use rust_dns_backend.Text.{Text, codes}
use rust_dns_backend.Text.Split.{join}
use rust_dns_backend.Map.{Map}
use rust_dns_backend.Acl.{Acl}
use rust_dns_backend.Filter.{FilterEngine}
use rust_dns_backend.Metrics.{DnsMetrics}
use rust_dns_backend.Client.{ClientDb}
use rust_dns_backend.Resolver.Config.{NameServer, HostLookup}
use rust_dns_backend.Pool.{UpstreamPool, Shuffle}

-- `QueryLogEntry`
pub record LogEntry : Type 0 where
  pub time : Text
  pub client_ip : Text
  pub question : Text
  pub qtype : Text
  pub status : Text
  pub reason : Option Text
  pub answer : Option Text
  pub elapsed_ns : ℕ
  pub upstream_ns : Option ℕ
  pub upstream_name : Option Text
  pub app_id : Option ℤ

-- The fields of the event for the WebSocket clients.
pub record LogEvent : Type 0 where
  pub time : Text
  pub client_ip : Text
  pub question : Text
  pub qtype : Text
  pub status : Text
  pub reason : Option Text
  pub answer : Option Text
  pub elapsed_ns : ℕ
  pub upstream_ns : Option ℕ
  pub upstream : Option Text

-- `C`, `D` and `E` are the caches of responses, of client configurations and of client resolvers.
-- `query_log` and `events` are what was sent on the two channels, newest last.
pub record HandlerState (N S R C D E : Type 0) : Type 0 where
  pub filter : FilterEngine S
  pub upstream_pool : UpstreamPool R
  pub acl : Acl N
  pub client_resolvers : E
  pub cache : C
  pub client_config_cache : D
  pub metrics : DnsMetrics
  pub app_catalog : Map ℤ
  pub query_log : List LogEntry
  pub events : List LogEvent

-- What one query reads besides the state: the settings, the world, and the clock. `now` counts
-- seconds; `has_room` tells whether the bounded channel of the log takes an entry.
pub record HandlerEnv (R : Type 0) : Type 0 where
  pub prefer_ipv4 : Bool
  pub rewrite_ttl : ℕ
  pub lookup_host : HostLookup
  pub connect : List NameServer → R
  pub shuffle : Shuffle R
  pub client_db : ClientDb
  pub now : ℕ
  pub time : Text
  pub elapsed_ns : ℕ
  pub upstream_ns : ℕ
  pub has_room : Bool

abbrev pub event_of : LogEntry → LogEvent
event_of e = record {
  time = e.time;
  client_ip = e.client_ip;
  question = e.question;
  qtype = e.qtype;
  status = e.status;
  reason = e.reason;
  answer = e.answer;
  elapsed_ns = e.elapsed_ns;
  upstream_ns = e.upstream_ns;
  upstream = e.upstream_name;
}

-- `try_send` to the log, which drops the entry when the channel is full, and the broadcast.
unfoldable pub log_query :
    {N S R C D E : Type 0}
    → HandlerEnv R
    → LogEntry
    → HandlerState N S R C D E
    → HandlerState N S R C D E
log_query env entry s = record s {
  query_log = if env.has_room then s.query_log ++ entry ∷ [] else s.query_log;
  events = s.events ++ event_of entry ∷ [];
}

-- The order of texts, by code points, as that of their UTF-8 bytes.
unfoldable pub text_leb : Text → Text → Bool
text_leb [] ys = true
text_leb (x ∷ xs) [] = false
text_leb (x ∷ xs) (y ∷ ys) = ltb x y || x == y && text_leb xs ys

unfoldable pub insert_text : Text → List Text → List Text
unfolding text_leb
insert_text s [] = s ∷ []
insert_text s (t ∷ ts) =
    let rest = insert_text s ts in if text_leb s t then s ∷ t ∷ ts else t ∷ rest

unfoldable pub sort_texts : List Text → List Text
unfolding insert_text
sort_texts [] = []
sort_texts (s ∷ ts) = insert_text s (sort_texts ts)

-- The key of the resolver cache.
unfoldable pub resolver_key : List Text → Text
unfolding sort_texts join
resolver_key upstreams = join (codes ",") (sort_texts upstreams)
