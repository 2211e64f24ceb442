-- ===== src/Tests/Parts.antt =====
-- src/dns/acl.rs, cache.rs and resolver.rs at fixed inputs.
use rust_dns_backend.Base.{
  keep_if, arith, ℕ, ◌+◌, ◌<◌, ◌≡◌, refl, true, false, some, List, [], ◌∷◌, length,
}
use rust_dns_backend.Text.{trim, Text, codes, contains}
use rust_dns_backend.Net.{parse_ipv4, parse_ip, parse_socket_addr, v4, v6}
use rust_dns_backend.Map.{Map, map_get, map_insert}
use rust_dns_backend.Acl.{Acl, is_allowed, validate_cidrs}
use rust_dns_backend.Acl.Laws.{blank_entries}
use rust_dns_backend.Dns.{a}
use rust_dns_backend.Cache.{
  CacheEntry, expire_after_create, clamp_ttl, cache_key, get, ttl_max_secs,
}
use rust_dns_backend.Cache.Laws.{Write, IsLast, write_all, get-write_all}
use rust_dns_backend.Resolver.{found, lookup_response}
use rust_dns_backend.Resolver.Url.{
  parse_authority, split_path, plain_authority, split_last, parse_u16, parse_dot_url,
}
use rust_dns_backend.Resolver.UrlLaws.{IsPlainHost}
use rust_dns_backend.Resolver.Config.{
  all_servers, servers_of, dot_servers, host_servers, host_ips, is_skipped_ip, plain_server,
  HostLookup, with_upstreams,
}
use rust_dns_backend.Text.Split.{split}
use rust_dns_backend.Tests.Fixtures.{
  ascii, host_nets, responses, timed_cache_laws, wire, asked, one_record, configs, read_entry,
  next_deadline,
}

abbrev mixed_acl : Acl ℕ
mixed_acl = record { allowed_nets = 1 ∷ 2 ∷ []; denied_nets = 2 ∷ [] }

denied_run : is_allowed mixed_acl (v4 2) ≡ false
unfolding is_allowed
denied_run = refl

abbrev bad_entries : List Text
bad_entries = codes "  " ∷ codes "10.0.0.300" ∷ []

bad_run :
    length (validate_cidrs host_nets bad_entries) + length (blank_entries bad_entries)
    ≡ length bad_entries
unfolding validate_cidrs blank_entries parse_ipv4 split
bad_run = refl

no_colon_a : contains b':' (codes "A") ≡ false
unfolding contains
no_colon_a = refl

abbrev stored : List ℕ
stored = 1 ∷ 2 ∷ []

abbrev no_entries : Map (ℕ × CacheEntry)
no_entries = []

-- The second write comes while the entry of the first is live, and keeps its deadline.
abbrev writes : List Write
writes =
    record { at = 102; domain = codes "Example.com."; qtype = a; bytes = stored; min_ttl = some 3 }
    ∷ record { at = 100; domain = codes "example.com."; qtype = a; bytes = []; min_ttl = some 60 }
    ∷ []

read_run : get 150 (write_all no_entries writes) (codes "example.com.") a ≡ some stored
unfolding get write_all read_entry next_deadline map_get map_insert cache_key clamp_ttl
    expire_after_create
read_run = refl

get-write_all_example :
    (w : Write) × IsLast (cache_key (codes "example.com.") a) w writes
    × (stored ≡ w.bytes)
    × (150 < w.at + ttl_max_secs)
get-write_all_example =
    get-write_all (timed_cache_laws expire_after_create) no_entries writes 150
      (codes "example.com.") a ((omega arith, tt), (tt, tt)) read_run

min_ttl_run : (lookup_response asked (found (one_record ∷ []))).1 ≡ some 60
unfolding lookup_response
min_ttl_run = refl

abbrev dns_google : Text
dns_google = codes "dns.google"

plain_example : IsPlainHost dns_google
unfolding contains
plain_example = record { not_empty = refl; no_colon = refl; no_slash = refl; no_bracket = refl }

port_marks : (contains b':' (codes "8853") ≡ false) × (contains b'/' (codes "8853") ≡ false)
unfolding contains
port_marks = (refl, refl)

port_run : parse_u16 (codes "8853") ≡ some 8853
unfolding parse_u16
port_run = refl

abbrev two_addresses : HostLookup
two_addresses = λ host. some ((v4 134744072, 853) ∷ (v6 (1 ∷ []), 853) ∷ [])

abbrev upstreams : List Text
upstreams = codes "tls://dns.google" ∷ codes "[::1]:53" ∷ []

servers_run : length (with_upstreams two_addresses true upstreams) ≡ 1
unfolding with_upstreams all_servers servers_of trim dot_servers parse_dot_url parse_authority
    split_path plain_authority split_last host_servers host_ips keep_if is_skipped_ip plain_server
    parse_socket_addr parse_ip
servers_run = refl
