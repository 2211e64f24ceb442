-- ===== src/Tests/Fixtures.antt =====
-- Stand-ins for the crates that the program calls, with the laws that the theorems ask of them.
use rust_dns_backend.Base.{
  ℕ, ◌+◌, ◌/◌, ◌%◌, ◌<◌, ◌≡◌, refl, sym, ap, ◌∙◌, inl, inr, true, false, Option, none, some, List,
  [], ◌∷◌, map, ltb, ◌==◌, if◌then◌else◌, is_nil, any, length, arith, Bool-cases, All, head_or, ◌*◌,
}
use rust_dns_backend.Text.{Text, Unicode, codes, text_eq, decimal}
use rust_dns_backend.Text.Split.{split}
use rust_dns_backend.Text.Laws.{text_eq_iff, text_eq_refl}
use rust_dns_backend.Net.{IpAddr, v4, v6, parse_ipv4, is_ipv6}
use rust_dns_backend.Map.{Map, map_get, map_insert, map_remove, map_get-insert, map_get-remove}
use rust_dns_backend.Rules.{RegexCrate}
use rust_dns_backend.Acl.{IpnetCrate}
use rust_dns_backend.Dns.{
  response, a, aaaa, other_type, a_data, aaaa_data, other_data, Record, Message, new_message,
  Hickory,
}
use rust_dns_backend.Cache.{CacheEntry, MokaCrate, MokaLaws, expire_after_create}
use rust_dns_backend.Resolver.{LookupCrate, found, lookup_error}
use rust_dns_backend.Resolver.Config.{ConfigCrate, NameServer, Protocol, udp}
use rust_dns_backend.Resolver.ConfigLaws.{IsIpv4Server, FromIpsLaw}
use rust_dns_backend.Client.{ClientConfig}

-- Texts of ASCII only.
instance abbrev pub ascii : Unicode
ascii = record { alphanumeric = λ c. false; whitespace = λ c. false; lowercase = λ s. s }

-- Patterns that match themselves.
instance abbrev pub literal_regex : RegexCrate (List Text)
literal_regex = record {
  compile = some;
  set_is_empty = is_nil;
  is_match = λ set d. any (text_eq d) set;
}

-- Networks of one IPv4 address.
instance abbrev pub host_nets : IpnetCrate ℕ
host_nets = record {
  net_from_str = λ s. parse_ipv4 (head_or (split b'/' s) []);
  net_contains = λ n ip. elim ip [ v4 m ↦ n == m | v6 g ↦ false ];
}

-- A cache that evicts nothing but what is past its deadline. An entry is its deadline and its value.
module _ {V : Type 0} (expiry : V → ℕ) where
  unfoldable pub read_entry : ℕ → Option (ℕ × V) → Option V
  read_entry now none = none
  read_entry now (some (deadline, v)) = if ltb now deadline then some v else none

  -- The deadline of a write over an entry.
  unfoldable pub next_deadline : ℕ → V → Option (ℕ × V) → ℕ
  next_deadline now v none = now + expiry v
  next_deadline now v (some (deadline, old)) = if ltb now deadline then deadline else now + expiry v

  unfoldable pub deadline_or_zero : Option (ℕ × V) → ℕ
  deadline_or_zero none = 0
  deadline_or_zero (some (deadline, v)) = deadline

  abbrev pub timed_cache : MokaCrate V (Map (ℕ × V))
  timed_cache = record {
    cache_get = λ now k c. read_entry now (map_get k c);
    cache_insert = λ now k v c. map_insert k (next_deadline now v (map_get k c), v) c;
    cache_invalidate = λ k c. map_remove k c;
    cache_invalidate_all = λ c. [];
    entry_count = λ c. length c;
  }

  insert_self : (k : Text) (e : ℕ × V) (c : Map (ℕ × V)) → map_get k (map_insert k e c) ≡ some e
  insert_self k e c =
      map_get-insert k k e c ∙ ap (λ t. if t then some e else map_get k c) (text_eq_refl k)

  insert_other :
      (k j : Text) (e : ℕ × V) (c : Map (ℕ × V))
      → ¬ (k ≡ j)
      → map_get j (map_insert k e c) ≡ map_get j c
  insert_other k j e c other = elim (Bool-cases (text_eq k j)) [
    | inl t ↦ absurd (other ((text_eq_iff k j).0 t))
    | inr t ↦ map_get-insert k j e c ∙ ap (λ t. if t then some e else map_get j c) t
  ]

  live :
      (now : ℕ) (o : Option (ℕ × V)) {v : V} → read_entry now o ≡ some v → now < deadline_or_zero o
  unfolding read_entry deadline_or_zero
  live now none h = absurd (ground arith)
  live now (some (deadline, v)) h = ground arith

  written_value :
      (now deadline : ℕ) (v : V) {w : V} → read_entry now (some (deadline, v)) ≡ some w → w ≡ v
  unfolding read_entry
  written_value now deadline v h = ground arith

  created :
      (now : ℕ) (v : V) (o : Option (ℕ × V))
      → read_entry now o ≡ none
      → next_deadline now v o ≡ now + expiry v
  unfolding read_entry next_deadline
  created now v none h = refl
  created now v (some (deadline, old)) h = ground arith

  kept_deadline :
      (now : ℕ) (v : V) (o : Option (ℕ × V)) {old : V}
      → read_entry now o ≡ some old
      → next_deadline now v o ≡ deadline_or_zero o
  unfolding read_entry next_deadline deadline_or_zero
  kept_deadline now v none h = absurd (ground arith)
  kept_deadline now v (some (deadline, w)) h = ground arith

  pub timed_cache_laws : MokaLaws expiry timed_cache
  unfolding map_get read_entry deadline_or_zero
  timed_cache_laws = record {
    deadline = λ k c. deadline_or_zero (map_get k c);
    get_live = λ now k c h. live now (map_get k c) h;
    get_written = λ now written k v c h.
        let d = next_deadline written v (map_get k c) in
        written_value now d v (ap (λ o. read_entry now o) (sym (insert_self k (d, v) c)) ∙ h);
    get_other = λ now written k j v c other h.
        let d = next_deadline written v (map_get k c) in
        ap (λ o. read_entry now o) (sym (insert_other k j (d, v) c other)) ∙ h;
    deadline_created = λ written k v c h.
        let d = next_deadline written v (map_get k c) in
        ap (λ o. deadline_or_zero o) (insert_self k (d, v) c) ∙ created written v (map_get k c) h;
    deadline_kept = λ written k v c h.
        let d = next_deadline written v (map_get k c) in
        ap (λ o. deadline_or_zero o) (insert_self k (d, v) c)
        ∙ kept_deadline written v (map_get k c) h;
    deadline_other = λ written k j v c other.
        let d = next_deadline written v (map_get k c) in
        ap (λ o. deadline_or_zero o) (insert_other k j (d, v) c other);
    get_invalidated = λ now k c.
        ap (λ o. read_entry now o)
          (map_get-remove k k c ∙ ap (λ t. if t then none else map_get k c) (text_eq_refl k));
    get_invalidated_all = λ now k c. refl;
  }

instance abbrev pub responses : MokaCrate CacheEntry (Map (ℕ × CacheEntry))
responses = timed_cache expire_after_create

instance abbrev pub client_configs :
    MokaCrate (ClientConfig (List Text)) (Map (ℕ × ClientConfig (List Text)))
client_configs = timed_cache (λ c. 60)

instance abbrev pub client_resolvers : MokaCrate ℕ (Map (ℕ × ℕ))
client_resolvers = timed_cache (λ r. 3600)

-- A query of two bytes, its id, asks for one name; a longer message is a response.
abbrev pub asked : Message
asked = record new_message {
  id = 7;
  recursion_desired = true;
  queries = record { name = codes "ads.example.com."; query_type = a } ∷ [];
}

instance abbrev pub wire : Hickory
wire = record {
  from_vec = λ bytes. elim bytes [
    | [] ↦ none
    | h ∷ rest ↦ elim rest [
      | [] ↦ none
      | l ∷ more ↦ some (
          if is_nil more
          then record asked { id = h * 256 + l }
          else record asked { id = h * 256 + l; message_type = response })
    ]
  ];
  to_vec = λ m. some ((m.id / 256) ∷ (m.id % 256) ∷ length m.answers ∷ []);
  debug_type = λ t. elim t [ a ↦ codes "A" | aaaa ↦ codes "AAAA" | other_type n ↦ decimal n ];
  show_data = λ d. elim d [ a_data n ↦ decimal n | aaaa_data g ↦ codes "::" | other_data s ↦ s ];
}

abbrev pub one_record : Record
one_record = record {
  owner = codes "ads.example.com.";
  record_type = a;
  record_ttl = 60;
  rdata = some (a_data 16909060);
}

-- Resolver 0 reaches nobody.
instance abbrev pub lookups : LookupCrate ℕ
lookups = record { lookup = λ r name t. if r == 0 then lookup_error else found (one_record ∷ []) }

abbrev pub server_at : Protocol → ℕ → Text → IpAddr → NameServer
server_at protocol port host ip = record {
  ip = ip;
  port = port;
  protocol = protocol;
  server_name = some host;
}

instance abbrev pub configs : ConfigCrate
configs = record {
  from_ips = λ protocol ips port host. map (server_at protocol port host) ips;
  cloudflare = record { ip = v4 16843009; port = 53; protocol = udp; server_name = none } ∷ [];
}

from_ips_ipv4 :
    (protocol : Protocol) (ips : List IpAddr) (port : ℕ) (host : Text)
    → All (λ ip. is_ipv6 ip ≡ false) ips
    → All IsIpv4Server (map (server_at protocol port host) ips)
from_ips_ipv4 protocol [] port host h = tt
from_ips_ipv4 protocol (ip ∷ ips) port host h = (h.0, from_ips_ipv4 protocol ips port host h.1)

pub configs_law : FromIpsLaw configs
configs_law protocol ips port host h = from_ips_ipv4 protocol ips port host h

pub differ : (s t : Text) → text_eq s t ≡ false → ¬ (s ≡ t)
differ s t h e = let k : text_eq s t ≡ true = (text_eq_iff s t).1 e in absurd (ground arith)
