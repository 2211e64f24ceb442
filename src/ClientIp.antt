-- ===== src/ClientIp.antt =====
-- src/api/middleware/client_ip.rs: the address that a request is taken to come from. `extract_ip` of
-- src/api/middleware/audit.rs reads the same headers. A header that is no text counts as absent.
use rust_dns_backend.Base.{
  ℕ, ◌<◌, ◌≡◌, ◌⊎◌, Bool, false, ◌||◌, Option, none, some, [], ◌∷◌, if◌then◌else◌, is_nil, head_or,
  arith,
}
use rust_dns_backend.Text.{Text, Unicode, codes, text_eq, trim}
use rust_dns_backend.Text.Split.{split}
use rust_dns_backend.Net.{IpAddr, v4, v6}
use rust_dns_backend.Subscription.Guard.{is_loopback_v4, is_private_v4}
use rust_dns_backend.Subscription.GuardLaws.{address}

unfoldable pub is_trusted_peer : IpAddr → Bool
unfolding is_loopback_v4 is_private_v4 text_eq
is_trusted_peer (v4 a) = is_loopback_v4 a || is_private_v4 a
is_trusted_peer (v6 s) = text_eq s (0 ∷ 0 ∷ 0 ∷ 0 ∷ 0 ∷ 0 ∷ 0 ∷ 1 ∷ [])

-- The headers `x-forwarded-for` and `x-real-ip`, and the address of the TCP peer, if they are known.
pub record Origin : Type 0 where
  pub forwarded_for : Option Text
  pub real_ip : Option Text
  pub peer : Option IpAddr

-- A text that is not blank, trimmed.
abbrev non_blank : Text → Option Text
non_blank s = if is_nil s then none else some s

abbrev pub or_else {ℓ} : {A : Type ℓ} → Option A → Option A → Option A
or_else none o = o
or_else (some a) o = some a

module _ ⦃u : Unicode⦄ where
  unfoldable pub first_forwarded : Option Text → Option Text
  unfolding split trim
  first_forwarded none = none
  first_forwarded (some s) = non_blank (trim (head_or (split b',' s) []))

  unfoldable pub trimmed_real_ip : Option Text → Option Text
  unfolding trim
  trimmed_real_ip none = none
  trimmed_real_ip (some s) = non_blank (trim s)

  -- The address that the headers give.
  unfoldable pub header_ip : Origin → Option Text
  unfolding first_forwarded trimmed_real_ip
  header_ip o = or_else (first_forwarded o.forwarded_for) (trimmed_real_ip o.real_ip)

  -- `{}` of an address is a parameter.
  module _ (show : IpAddr → Text) where
    abbrev peer_text : Option IpAddr → Text
    peer_text none = codes "unknown"
    peer_text (some ip) = show ip

    abbrev or_text : Option Text → Text → Text
    or_text none t = t
    or_text (some s) t = s

    abbrev is_trusted : Option IpAddr → Bool
    is_trusted none = false
    is_trusted (some ip) = is_trusted_peer ip

    -- `ClientIp::from_request_parts`
    unfoldable pub client_ip : Origin → Text
    unfolding header_ip is_trusted_peer
    client_ip o =
        if is_trusted o.peer then or_text (header_ip o) (peer_text o.peer) else peer_text o.peer

    -- `extract_ip` of the audit middleware, which trusts every peer.
    unfoldable pub extract_ip : Origin → Text
    unfolding header_ip
    extract_ip o = or_text (header_ip o) (peer_text o.peer)

    -- Neither loopback nor in one of the private networks.
    abbrev Outside : ℕ → Type 0
    Outside a =
        ((a < address 127 0 0 0) ⊎ (address 127 255 255 255 < a))
        × ((a < address 10 0 0 0) ⊎ (address 10 255 255 255 < a))
        × ((a < address 172 16 0 0) ⊎ (address 172 31 255 255 < a))
        × ((a < address 192 168 0 0) ⊎ (address 192 168 255 255 < a))

    Outside-is_trusted_peer : (a : ℕ) → Outside a → is_trusted_peer (v4 a) ≡ false
    unfolding is_trusted_peer is_loopback_v4 is_private_v4
    Outside-is_trusted_peer a h = ground arith

    -- A peer with a public IPv4 address cannot pass for another client: whatever headers it sends, the
    -- request counts as coming from the peer.
    pub client_ip-Outside :
        (o : Origin) (a : ℕ) → o.peer ≡ some (v4 a) → Outside a → client_ip o ≡ show (v4 a)
    unfolding client_ip
    client_ip-Outside o a h k = ground (arith, h, Outside-is_trusted_peer a k)
