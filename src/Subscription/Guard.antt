-- ===== src/Subscription/Guard.antt =====
-- src/dns/subscription.rs, `validate_filter_url`, `is_private_ip` and `fetch_remote_filter`. The crate
-- `url` and the HTTP client are parameters.
use rust_dns_backend.Base.{
  ℕ, ◌+◌, ◌*◌, ◌-◌, ◌/◌, ◌^◌, Bool, false, not, ◌||◌, Option, none, some, List, [], ◌∷◌, ltb, ◌==◌,
  if◌then◌else◌, head_or, length,
}
use rust_dns_backend.Text.{Text, codes, text_eq}
use rust_dns_backend.Net.{IpAddr, v4, v6, parse_ip}

-- The octets of an address, most significant first, as a number.
abbrev octets3 : ℕ → ℕ → ℕ → ℕ
octets3 a b c = a * 65536 + b * 256 + c

-- `Ipv4Addr::is_loopback`, `is_private`, `is_link_local`, `is_broadcast`, `is_documentation` and
-- `is_unspecified` of the standard library.
unfoldable pub is_loopback_v4 : ℕ → Bool
is_loopback_v4 a = a / 2 ^ 24 == 127

unfoldable pub is_private_v4 : ℕ → Bool
is_private_v4 a = a / 2 ^ 24 == 10 || a / 2 ^ 20 == 172 * 16 + 1 || a / 2 ^ 16 == 192 * 256 + 168

unfoldable pub is_special_v4 : ℕ → Bool
is_special_v4 a =
    (a / 2 ^ 16 == 169 * 256 + 254 || a == 2 ^ 32 - 1)
    || (a / 256 == octets3 192 0 2 || a / 256 == octets3 198 51 100 || a / 256 == octets3 203 0 113)
    || a == 0

-- `is_loopback` and `is_unspecified` of IPv6, and the two masks on the first segment, which has 16
-- bits.
unfoldable pub is_private_v6 : List ℕ → Bool
unfolding text_eq
is_private_v6 s =
    (text_eq s (0 ∷ 0 ∷ 0 ∷ 0 ∷ 0 ∷ 0 ∷ 0 ∷ 1 ∷ [])
      || text_eq s (0 ∷ 0 ∷ 0 ∷ 0 ∷ 0 ∷ 0 ∷ 0 ∷ 0 ∷ []))
    || (head_or s 0 / 512 == 0xfc00 / 512 || head_or s 0 / 64 == 0xfe80 / 64)

unfoldable pub is_private_ip : IpAddr → Bool
unfolding is_loopback_v4 is_private_v4 is_special_v4 is_private_v6
is_private_ip (v4 a) = is_loopback_v4 a || is_private_v4 a || is_special_v4 a
is_private_ip (v6 s) = is_private_v6 s

pub data FetchError : Type 0 where
  invalid_url disallowed_scheme no_host private_address : FetchError
  request_failed http_error too_large not_utf8 : FetchError

-- `url::Url::parse`: the scheme and `host_str`, and the client: the status is a success, the
-- Content-Length, and the body.
pub record Response : Type 0 where
  pub success : Bool
  pub content_length : Option ℕ
  pub body : Option (List ℕ)

pub record HttpCrate : Type 0 where
  pub parse_url : Text → Option (Text × Option Text)
  pub send : Text → Option Response
  pub from_utf8 : List ℕ → Option Text

-- Ten megabytes.
abbrev pub max_response_size : ℕ
max_response_size = 10485760

unfoldable pub check_host : Option Text → Option FetchError
unfolding parse_ip is_private_ip
check_host none = some no_host
check_host (some host) = elim (parse_ip host) [
  | none ↦ none
  | some ip ↦ if is_private_ip ip then some private_address else none
]

abbrev pub is_too_long : Option ℕ → Bool
is_too_long none = false
is_too_long (some n) = ltb max_response_size n

pub data Fetched : Type 0 where
  content : Text → Fetched
  failed : FetchError → Fetched

module _ ⦃http : HttpCrate⦄ where
  -- The error of the check, or `none` for `Ok(())`.
  unfoldable pub validate_filter_url : Text → Option FetchError
  unfolding check_host text_eq
  validate_filter_url url = elim (http.parse_url url) [
    | none ↦ some invalid_url
    | some (scheme, host) ↦
        if text_eq scheme (codes "http") || text_eq scheme (codes "https")
        then check_host host
        else some disallowed_scheme
  ]

  unfoldable pub read_body : List ℕ → Fetched
  read_body bytes =
      let decoded : Fetched = elim (http.from_utf8 bytes) [
        | none ↦ failed not_utf8
        | some t ↦ content t
      ] in
      if ltb max_response_size (length bytes) then failed too_large else decoded

  unfoldable pub read_response : Response → Fetched
  unfolding read_body
  read_response r =
      let bytes : Fetched = elim r.body [ none ↦ failed request_failed | some b ↦ read_body b ] in
      if not r.success
      then failed http_error
      else if is_too_long r.content_length
      then failed too_large
      else bytes

  unfoldable pub fetch_remote_filter : Text → Fetched
  unfolding validate_filter_url read_response
  fetch_remote_filter url = elim (validate_filter_url url) [
    | some e ↦ failed e
    | none ↦ elim (http.send url) [ none ↦ failed request_failed | some r ↦ read_response r ]
  ]
