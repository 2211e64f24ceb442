-- ===== src/Subscription/GuardLaws.antt =====
-- src/dns/subscription.rs: which addresses the guard on list URLs keeps the fetcher from.
use rust_dns_backend.Base.{ℕ, ◌+◌, ◌*◌, ◌≤◌, ◌≡◌, refl, ◌⊎◌, none, some, ◌∷◌, arith}
use rust_dns_backend.Text.{Text, codes, text_eq}
use rust_dns_backend.Net.{parse_ip}
use rust_dns_backend.Subscription.Guard.{HttpCrate, check_host, validate_filter_url}

-- The addresses from `a.b.c.d` on.
abbrev pub address : ℕ → ℕ → ℕ → ℕ → ℕ
address a b c d = a * 16777216 + b * 65536 + c * 256 + d

abbrev Between : ℕ → ℕ → ℕ → Type 0
Between lo hi a = (lo ≤ a) × (a ≤ hi)

-- Loopback, the three private networks, link-local addresses, and 0.0.0.0.
abbrev pub IsInternal : ℕ → Type 0
IsInternal a =
    Between (address 127 0 0 0) (address 127 255 255 255) a
    ⊎ Between (address 10 0 0 0) (address 10 255 255 255) a
    ⊎ Between (address 172 16 0 0) (address 172 31 255 255) a
    ⊎ Between (address 192 168 0 0) (address 192 168 255 255) a
    ⊎ Between (address 169 254 0 0) (address 169 254 255 255) a
    ⊎ (a ≡ 0)

check_host-bracketed : (host : Text) → check_host (some (b'[' ∷ host)) ≡ none
unfolding check_host parse_ip
check_host-bracketed host = refl

module _ ⦃http : HttpCrate⦄ where
  -- An IPv6 literal is never checked: `host_str` gives it in brackets, and no text that begins with a
  -- bracket is read as an address, so that the guard lets every such host pass.
  pub validate_filter_url-bracketed :
      (url host : Text)
      → http.parse_url url ≡ some (codes "http", some (b'[' ∷ host))
      → validate_filter_url url ≡ none
  unfolding validate_filter_url text_eq
  validate_filter_url-bracketed url host h = ground (arith, h, check_host-bracketed host)
