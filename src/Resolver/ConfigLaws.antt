-- ===== src/Resolver/ConfigLaws.antt =====
-- src/dns/resolver.rs, `with_upstreams`: which name servers a resolver can have.
use rust_dns_backend.Base.{
  All-append, ◌≡◌, true, false, not, none, List, [], ◌∷◌, ◌++◌, map, All, keep_if, is_nil,
  Bool-cases, Option-cases, inl, inr, ℕ, if◌then◌else◌, ◌⊎◌,
}
use rust_dns_backend.Text.{Text, Unicode, codes, trim, strip_prefix, decimal}
use rust_dns_backend.Net.{IpAddr, is_ipv6, parse_ip, parse_socket_addr}
use rust_dns_backend.Resolver.Url.{parse_dot_url, parse_doh_url, UrlResult, err, ok}
use rust_dns_backend.Resolver.Config.{
  Protocol, https, tls, udp, tcp, NameServer, HostLookup, is_skipped_ip, plain_server, host_ips,
  doh_servers, dot_servers, servers_of, all_servers, with_upstreams, ConfigCrate, host_servers,
}

abbrev pub IsIpv4Server : NameServer → Type 0
IsIpv4Server ns = is_ipv6 ns.ip ≡ false

plain_server-ipv4 :
    (protocol : Protocol) (rest : Text) → All IsIpv4Server (plain_server true protocol rest)
unfolding plain_server is_skipped_ip
plain_server-ipv4 protocol rest = elim (Option-cases (parse_socket_addr rest)) [
  | inr ((ip, port), e) ↦ rw (e, plain_server) (one_server ip port)
  | inl n ↦ elim (Option-cases (parse_ip rest)) [
    | inr (ip, e) ↦ rw (n, e, plain_server) (one_server ip 53)
    | inl m ↦ rw (n, m, plain_server) tt
  ]
]
  where
    one_server :
        (ip : IpAddr) (port : ℕ)
        → All IsIpv4Server (
            if is_skipped_ip true ip
            then []
            else (record { ip = ip; port = port; protocol = protocol; server_name = none }) ∷ [])
    one_server ip port = elim (Bool-cases (is_ipv6 ip)) [ inl e ↦ rw e tt | inr e ↦ rw e (e, tt) ]

-- The documentation of the group constructors: each server has one of the addresses given.
abbrev pub FromIpsLaw : ConfigCrate → Type 0
FromIpsLaw config =
    (protocol : Protocol) (ips : List IpAddr) (port : ℕ) (host : Text)
    → All (λ ip. is_ipv6 ip ≡ false) ips
    → All IsIpv4Server (config.from_ips protocol ips port host)

kept-ipv4 :
    (addrs : List (IpAddr × ℕ))
    → All
        (λ ip. is_ipv6 ip ≡ false)
        (map (λ a. a.0) (keep_if (λ (a : IpAddr × ℕ). not (is_skipped_ip true a.0)) addrs))
unfolding keep_if is_skipped_ip
kept-ipv4 [] = tt
kept-ipv4 ((ip, port) ∷ addrs) = elim (Bool-cases (is_ipv6 ip)) [
  | inl e ↦ rw e (kept-ipv4 addrs)
  | inr e ↦ rw e (e, kept-ipv4 addrs)
]

host_ips-ipv4 :
    (lookup_host : HostLookup) (host : Text) (port : ℕ)
    → All (λ ip. is_ipv6 ip ≡ false) (host_ips lookup_host true host port)
unfolding host_ips
host_ips-ipv4 lookup_host host port =
    elim (Option-cases (lookup_host (host ++ b':' ∷ decimal port))) [
      | inl n ↦ rw (n, host_ips) tt
      | inr (addrs, e) ↦ rw (e, host_ips) (kept-ipv4 addrs)
    ]

module _ ⦃config : ConfigCrate⦄ (law : FromIpsLaw config) (lookup_host : HostLookup) where
  host_servers-ipv4 :
      (protocol : Protocol) (host : Text) (port : ℕ)
      → All IsIpv4Server (host_servers lookup_host true protocol host port)
  unfolding host_servers
  host_servers-ipv4 protocol host port =
      elim (Bool-cases (is_nil (host_ips lookup_host true host port))) [
        | inl e ↦ rw e tt
        | inr e ↦ rw e (
            law protocol (host_ips lookup_host true host port) port host
              (host_ips-ipv4 lookup_host host port))
      ]

  doh_servers-ipv4 : (upstream : Text) → All IsIpv4Server (doh_servers lookup_host true upstream)
  unfolding doh_servers
  doh_servers-ipv4 upstream = by_url (parse_doh_url upstream)
    where
      by_url :
          (r : UrlResult (Text × ℕ × Text))
          → All IsIpv4Server (elim r [
            | err e ↦ []
            | ok (host, port, path) ↦ host_servers lookup_host true https host port
          ])
      by_url (err e) = tt
      by_url (ok (host, port, path)) = host_servers-ipv4 https host port

  dot_servers-ipv4 : (upstream : Text) → All IsIpv4Server (dot_servers lookup_host true upstream)
  unfolding dot_servers
  dot_servers-ipv4 upstream = by_url (parse_dot_url upstream)
    where
      by_url :
          (r : UrlResult (Text × ℕ))
          → All IsIpv4Server (elim r [
            | err e ↦ []
            | ok (host, port) ↦ host_servers lookup_host true tls host port
          ])
      by_url (err e) = tt
      by_url (ok (host, port)) = host_servers-ipv4 tls host port

  servers_of-ipv4 : (upstream : Text) → All IsIpv4Server (servers_of lookup_host true upstream)
  unfolding servers_of
  servers_of-ipv4 upstream = elim (Option-cases (strip_prefix (codes "https://") upstream)) [
    | inr (r, e) ↦ rw (e, servers_of) (doh_servers-ipv4 upstream)
    | inl a ↦ elim (Option-cases (strip_prefix (codes "tls://") upstream)) [
      | inr (r, e) ↦ rw (a, e, servers_of) (dot_servers-ipv4 upstream)
      | inl b ↦ elim (Option-cases (strip_prefix (codes "udp://") upstream)) [
        | inr (r, e) ↦ rw (a, b, e, servers_of) (plain_server-ipv4 udp r)
        | inl c ↦ elim (Option-cases (strip_prefix (codes "tcp://") upstream)) [
          | inr (r, e) ↦ rw (a, b, c, e, servers_of) (plain_server-ipv4 tcp r)
          | inl d ↦ rw (a, b, c, d, servers_of) (plain_server-ipv4 udp upstream)
        ]
      ]
    ]
  ]

  module _ ⦃u : Unicode⦄ where
    all_servers-ipv4 :
        (upstreams : List Text) → All IsIpv4Server (all_servers lookup_host true upstreams)
    unfolding all_servers
    all_servers-ipv4 [] = tt
    all_servers-ipv4 (s ∷ upstreams) =
        All-append IsIpv4Server (servers_of lookup_host true (trim s))
          (all_servers lookup_host true upstreams) (servers_of-ipv4 (trim s))
          (all_servers-ipv4 upstreams)

    -- With `prefer_ipv4`, a resolver has the servers of Cloudflare, or only servers with an IPv4
    -- address and at least one: no upstream, of any scheme, brings in an IPv6 address. The group
    -- constructors are taken to use the addresses that they are given.
    pub with_upstreams-ipv4 :
        (upstreams : List Text)
        → (with_upstreams lookup_host true upstreams ≡ config.cloudflare)
          ⊎ (All IsIpv4Server (with_upstreams lookup_host true upstreams)
              × (is_nil (with_upstreams lookup_host true upstreams) ≡ false))
    unfolding with_upstreams
    with_upstreams-ipv4 upstreams =
        elim (Bool-cases (is_nil (all_servers lookup_host true upstreams))) [
          | inl e ↦ inl (rw e)
          | inr e ↦ inr (rw e (all_servers-ipv4 upstreams, e))
        ]
