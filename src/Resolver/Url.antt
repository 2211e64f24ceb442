-- ===== src/Resolver/Url.antt =====
-- src/dns/resolver.rs, `parse_dot_url` and `parse_doh_url`: the host, the port and the path of an
-- upstream's URL. Error messages are the kinds of error that they tell apart.
use rust_dns_backend.Base.{
  ℕ, not, ◌||◌, Option, none, some, [], ◌∷◌, ltb, ◌==◌, if◌then◌else◌, is_nil,
}
use rust_dns_backend.Text.{Text, codes, strip_prefix}
use rust_dns_backend.Net.{digit_run, digits_value}

pub data UrlError : Type 0 where
  wrong_scheme empty_host malformed_ipv6 invalid_port : UrlError

pub data UrlResult {ℓ} (A : Type ℓ) : Type ℓ where
  ok : A → UrlResult A
  err : UrlError → UrlResult A

infixl 5 ◌>>=◌
abbrev pub ◌>>=◌ {ℓ κ} : {A : Type ℓ} {B : Type κ} → UrlResult A → (A → UrlResult B) → UrlResult B
ok a >>= f = f a
err e >>= f = err e

-- What stands before and behind the last `c`, as `rfind` and two slices give it.
unfoldable pub split_last : ℕ → Text → Option (Text × Text)
split_last c [] = none
split_last c (x ∷ s) = elim (split_last c s) [
  | some (before, behind) ↦ some (x ∷ before, behind)
  | none ↦ if x == c then some ([], s) else none
]

-- The text in front of the first `c`, and from it on, as `find` and two slices give it.
unfoldable pub split_first : ℕ → Text → Option (Text × Text)
split_first c [] = none
split_first c (x ∷ s) =
    let rest : Option (Text × Text) = elim (split_first c s) [
      | none ↦ none
      | some (before, from) ↦ some (x ∷ before, from)
    ] in
    if x == c then some ([], x ∷ s) else rest

unfoldable pub parse_digits : Text → Option ℕ
unfolding digit_run digits_value
parse_digits s =
    let (ds, rest) = digit_run 10 s in
    let value = digits_value 10 0 ds in
    if is_nil ds || not (is_nil rest) then none else if ltb value 65536 then some value else none

-- `str::parse::<u16>`, which takes one plus sign.
unfoldable pub parse_u16 : Text → Option ℕ
unfolding parse_digits
parse_u16 [] = none
parse_u16 (c ∷ s) = if c == b'+' then parse_digits s else parse_digits (c ∷ s)

abbrev port_or_err : Option ℕ → UrlResult ℕ
port_or_err none = err invalid_port
port_or_err (some p) = ok p

-- What stands behind the bracket of an IPv6 literal.
unfoldable pub bracket_port : ℕ → Text → UrlResult ℕ
unfolding strip_prefix parse_u16
bracket_port default_port port_part =
    if is_nil port_part then ok default_port else elim (strip_prefix (codes ":") port_part) [
      | none ↦ err invalid_port
      | some p ↦ port_or_err (parse_u16 p)
    ]

unfoldable pub ipv6_authority : ℕ → Text → UrlResult (Text × ℕ)
unfolding split_last bracket_port
ipv6_authority default_port inside = elim (split_last b']' inside) [
  | none ↦ err malformed_ipv6
  | some (host, port_part) ↦ do port ← bracket_port default_port port_part; ok (host, port)
]

unfoldable pub plain_authority : ℕ → Text → UrlResult (Text × ℕ)
plain_authority default_port authority = elim (split_last b':' authority) [
  | some (host, port_str) ↦ do port ← port_or_err (parse_u16 port_str); ok (host, port)
  | none ↦ ok (authority, default_port)
]

unfoldable pub parse_authority : ℕ → Text → UrlResult (Text × ℕ)
unfolding strip_prefix
parse_authority default_port authority = elim (strip_prefix (codes "[") authority) [
  | some inside ↦ ipv6_authority default_port inside
  | none ↦ plain_authority default_port authority
]

abbrev checked_host : Text × ℕ → UrlResult (Text × ℕ)
checked_host (host, port) = if is_nil host then err empty_host else ok (host, port)

-- The authority and the path.
unfoldable pub split_path : Text → Text → Text × Text
unfolding split_first
split_path default_path rest = elim (split_first b'/' rest) [
  | none ↦ (rest, default_path)
  | some (authority, path) ↦ (authority, path)
]

unfoldable pub parse_dot_url : Text → UrlResult (Text × ℕ)
unfolding strip_prefix
parse_dot_url url = elim (strip_prefix (codes "tls://") url) [
  | none ↦ err wrong_scheme
  | some rest ↦
      if is_nil rest
      then err empty_host
      else do found ← parse_authority 853 (split_path [] rest).0; checked_host found
]

unfoldable pub parse_doh_url : Text → UrlResult (Text × ℕ × Text)
unfolding strip_prefix
parse_doh_url url = elim (strip_prefix (codes "https://") url) [
  | none ↦ err wrong_scheme
  | some rest ↦ if is_nil rest then err empty_host else do
    let parts = split_path (codes "/dns-query") rest
    found ← parse_authority 443 parts.0
    (host, port) ← checked_host found
    ok (host, port, parts.1)
]
