-- ===== src/Acl.antt =====
-- src/dns/acl.rs: the lists of allowed and denied networks. The crate `ipnet` is the instance
-- `IpnetCrate`.
pub mod Laws
use rust_dns_backend.Base.{
  ℕ, ◌≡◌, Bool, true, false, not, ◌&&◌, ◌||◌, Option, none, some, List, [], ◌∷◌, ◌++◌,
  if◌then◌else◌, is_nil, any, keep_if,
}
use rust_dns_backend.Text.{Text, Unicode, codes, trim, contains}
use rust_dns_backend.Net.{IpAddr}

-- `IpNet::from_str` (`Err` as `none`) and `IpNet::contains`.
pub record IpnetCrate (N : Type 0) : Type 0 where
  pub net_from_str : Text → Option N
  pub net_contains : N → IpAddr → Bool

pub record Acl (N : Type 0) : Type 0 where
  pub allowed_nets : List N
  pub denied_nets : List N

unfoldable pub new_acl : {N : Type 0} → Acl N
new_acl = record { allowed_nets = []; denied_nets = [] }

-- A bare address becomes the network of that address.
unfoldable pub cidr_text : Text → Text
unfolding contains
cidr_text s =
    if contains b'/' s then s else if contains b':' s then s ++ codes "/128" else s ++ codes "/32"

module _ ⦃u : Unicode⦄ {N : Type 0} ⦃ipnet : IpnetCrate N⦄ where
  -- The closure of `filter_map`: blank and invalid entries are skipped.
  unfoldable pub parse_entry : Text → Option N
  unfolding trim cidr_text
  parse_entry s = if is_nil (trim s) then none else ipnet.net_from_str (cidr_text (trim s))

  unfoldable pub parse_entries : List Text → List N
  unfolding parse_entry
  parse_entries [] = []
  parse_entries (s ∷ cidrs) =
      let rest = parse_entries cidrs in elim (parse_entry s) [ none ↦ rest | some net ↦ net ∷ rest ]

  unfoldable pub from_cidrs : List Text → List Text → Acl N
  unfolding parse_entries
  from_cidrs allowed_cidrs denied_cidrs = record {
    allowed_nets = parse_entries allowed_cidrs;
    denied_nets = parse_entries denied_cidrs;
  }

module _ ⦃u : Unicode⦄ {N : Type 0} (ipnet : IpnetCrate N) where
  -- The test of `validate_cidrs`.
  unfoldable pub is_invalid_entry : Text → Bool
  unfolding trim cidr_text
  is_invalid_entry s =
      if is_nil (trim s)
      then false
      else elim (ipnet.net_from_str (cidr_text (trim s))) [ none ↦ true | some _ ↦ false ]

  unfoldable pub validate_cidrs : List Text → List Text
  unfolding is_invalid_entry keep_if
  validate_cidrs cidrs = keep_if is_invalid_entry cidrs

module _ {N : Type 0} ⦃ipnet : IpnetCrate N⦄ where
  -- The loop over the denied networks, and `iter().any` over the allowed ones.
  unfoldable pub in_some_net : List N → IpAddr → Bool
  unfolding any
  in_some_net nets ip = any (λ net. ipnet.net_contains net ip) nets

  unfoldable pub is_allowed : Acl N → IpAddr → Bool
  unfolding in_some_net
  is_allowed acl ip =
      if is_nil acl.allowed_nets && is_nil acl.denied_nets
      then true
      else if in_some_net acl.denied_nets ip
      then false
      else if is_nil acl.allowed_nets
      then true
      else in_some_net acl.allowed_nets ip
