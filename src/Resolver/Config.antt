-- ===== src/Resolver/Config.antt =====
-- src/dns/resolver.rs, `DnsResolver::with_upstreams`: the name servers that a list of upstream
-- addresses stands for.
use rust_dns_backend.Base.{
  ℕ, Bool, not, ◌&&◌, Option, none, some, List, [], ◌∷◌, ◌++◌, map, if◌then◌else◌, is_nil, keep_if,
}
use rust_dns_backend.Text.{Text, Unicode, codes, trim, strip_prefix, decimal}
use rust_dns_backend.Net.{IpAddr, is_ipv6, parse_ip, parse_socket_addr}
use rust_dns_backend.Resolver.Url.{ok, err, parse_dot_url, parse_doh_url}

pub data Protocol : Type 0 where
  udp tcp https tls : Protocol

-- One `NameServerConfig`; `server_name` is the TLS name where there is one.
pub record NameServer : Type 0 where
  pub ip : IpAddr
  pub port : ℕ
  pub protocol : Protocol
  pub server_name : Option Text

-- `ToSocketAddrs` on `host:port`: the addresses that the system's resolver gives, or an error.
abbrev pub HostLookup : Type 0
HostLookup = Text → Option (List (IpAddr × ℕ))

-- An address that `prefer_ipv4` does not want.
unfoldable pub is_skipped_ip : Bool → IpAddr → Bool
is_skipped_ip prefer_ipv4 ip = prefer_ipv4 && is_ipv6 ip

abbrev name_server : Protocol → IpAddr → ℕ → NameServer
name_server protocol ip port = record {
  ip = ip;
  port = port;
  protocol = protocol;
  server_name = none;
}

-- A plain `ip:port` or `ip`, behind any `udp://` or `tcp://`.
unfoldable pub plain_server : Bool → Protocol → Text → List NameServer
plain_server prefer_ipv4 protocol rest = elim (parse_socket_addr rest) [
  | some (ip, port) ↦ if is_skipped_ip prefer_ipv4 ip then [] else name_server protocol ip port ∷ []
  | none ↦ elim (parse_ip rest) [
    | some ip ↦ if is_skipped_ip prefer_ipv4 ip then [] else name_server protocol ip 53 ∷ []
    | none ↦ []
  ]
]

-- Of `hickory_resolver::config`: `NameServerConfigGroup::from_ips_https` and `from_ips_tls`, and the
-- servers of `ResolverConfig::cloudflare`.
pub record ConfigCrate : Type 0 where
  pub from_ips : Protocol → List IpAddr → ℕ → Text → List NameServer
  pub cloudflare : List NameServer

module _ (lookup_host : HostLookup) (prefer_ipv4 : Bool) where
  -- The addresses of a host that are wanted.
  unfoldable pub host_ips : Text → ℕ → List IpAddr
  host_ips host port = elim (lookup_host (host ++ b':' ∷ decimal port)) [
    | none ↦ []
    | some addrs ↦
        map (λ a. a.0) (keep_if (λ (a : IpAddr × ℕ). not (is_skipped_ip prefer_ipv4 a.0)) addrs)
  ]

module _ ⦃config : ConfigCrate⦄ (lookup_host : HostLookup) (prefer_ipv4 : Bool) where
  -- A host without a usable address is skipped.
  unfoldable pub host_servers : Protocol → Text → ℕ → List NameServer
  host_servers protocol host port =
      let ips = host_ips lookup_host prefer_ipv4 host port in
      if is_nil ips then [] else config.from_ips protocol ips port host

  unfoldable pub doh_servers : Text → List NameServer
  doh_servers upstream = elim (parse_doh_url upstream) [
    | err e ↦ []
    | ok (host, port, path) ↦ host_servers https host port
  ]

  unfoldable pub dot_servers : Text → List NameServer
  dot_servers upstream = elim (parse_dot_url upstream) [
    | err e ↦ []
    | ok (host, port) ↦ host_servers tls host port
  ]

  -- The branches on the scheme, on a trimmed upstream.
  unfoldable pub servers_of : Text → List NameServer
  unfolding strip_prefix
  servers_of upstream = elim (strip_prefix (codes "https://") upstream) [
    | some _ ↦ doh_servers upstream
    | none ↦ elim (strip_prefix (codes "tls://") upstream) [
      | some _ ↦ dot_servers upstream
      | none ↦ elim (strip_prefix (codes "udp://") upstream) [
        | some rest ↦ plain_server prefer_ipv4 udp rest
        | none ↦ elim (strip_prefix (codes "tcp://") upstream) [
          | some rest ↦ plain_server prefer_ipv4 tcp rest
          | none ↦ plain_server prefer_ipv4 udp upstream
        ]
      ]
    ]
  ]

  module _ ⦃u : Unicode⦄ where
    -- The loop over the upstreams.
    unfoldable pub all_servers : List Text → List NameServer
    all_servers [] = []
    all_servers (s ∷ upstreams) = servers_of (trim s) ++ all_servers upstreams

    unfoldable pub with_upstreams : List Text → List NameServer
    with_upstreams upstreams =
        if is_nil (all_servers upstreams) then config.cloudflare else all_servers upstreams
