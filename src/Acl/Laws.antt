-- ===== src/Acl/Laws.antt =====
-- src/dns/acl.rs: what `is_allowed` decides, and that `from_cidrs` drops exactly the entries that
-- `validate_cidrs` reports or that are blank.
use rust_dns_backend.Base.{
  ◌+◌, ◌≡◌, refl, ◌↔◌, ◌⊎◌, inl, inr, true, false, List, [], ◌∷◌, arith, Bool-cases, In, any-In,
  In-any, is_nil, length, keep_if,
}
use rust_dns_backend.Text.{Text, Unicode, trim}
use rust_dns_backend.Net.{IpAddr}
use rust_dns_backend.Acl.{
  IpnetCrate, Acl, in_some_net, is_allowed, parse_entries, from_cidrs, validate_cidrs,
}

module _ {N : Type 0} ⦃ipnet : IpnetCrate N⦄ where
  abbrev pub Covers : List N → IpAddr → Type 0
  Covers nets ip = (net : N) × In net nets × (ipnet.net_contains net ip ≡ true)

  in_some_net_iff : (nets : List N) (ip : IpAddr) → (in_some_net nets ip ≡ true) ↔ Covers nets ip
  unfolding in_some_net
  in_some_net_iff nets ip = (
    any-In (λ net. ipnet.net_contains net ip) nets,
    λ (net, m, h). In-any (λ net. ipnet.net_contains net ip) nets m h,
  )

  nil-not-Covers : (nets : List N) (ip : IpAddr) → is_nil nets ≡ true → ¬ Covers nets ip
  nil-not-Covers [] ip e (net, m, h) = elim m [ ]
  nil-not-Covers (n ∷ nets) ip e c = cc

  -- An address is allowed exactly when no denied network holds it and, unless no network is listed
  -- as allowed, an allowed one does: denial takes precedence.
  pub is_allowed_iff :
      (acl : Acl N) (ip : IpAddr)
      → (is_allowed acl ip ≡ true) ↔ (
          (¬ Covers acl.denied_nets ip)
          × ((is_nil acl.allowed_nets ≡ true) ⊎ Covers acl.allowed_nets ip))
  unfolding is_allowed
  is_allowed_iff acl ip = (
    λ h. (
      λ c.
          let d = (in_some_net_iff acl.denied_nets ip).1 c in
          let e = not_nil acl ip c in ground arith,
      elim (Bool-cases (is_nil acl.allowed_nets)) [
        | inl e ↦ inl e
        | inr e ↦ inr ((in_some_net_iff acl.allowed_nets ip).0 (ground arith))
      ],
    ),
    λ (n, a).
        let d : in_some_net acl.denied_nets ip ≡ false =
          elim (Bool-cases (in_some_net acl.denied_nets ip)) [
            | inl e ↦ absurd (n ((in_some_net_iff acl.denied_nets ip).0 e))
            | inr e ↦ e
          ] in
        elim a [
          | inl e ↦ ground arith
          | inr c ↦ let e = (in_some_net_iff acl.allowed_nets ip).1 c in ground arith
        ],
  )
    where
      not_nil :
          (acl : Acl N) (ip : IpAddr) → Covers acl.denied_nets ip → is_nil acl.denied_nets ≡ false
      not_nil acl ip c = elim (Bool-cases (is_nil acl.denied_nets)) [
        | inl e ↦ absurd (nil-not-Covers acl.denied_nets ip e c)
        | inr e ↦ e
      ]

module _ ⦃u : Unicode⦄ where
  -- Entries of white space only.
  unfoldable pub blank_entries : List Text → List Text
  unfolding keep_if
  blank_entries cidrs = keep_if (λ s. is_nil (trim s)) cidrs

module _ ⦃u : Unicode⦄ (N : Type 0) ⦃ipnet : IpnetCrate N⦄ where
  -- Each entry is blank, is reported as invalid, or has become one network.
  pub parse_entries_partition :
      (cidrs : List Text)
      → length (parse_entries {N = N} cidrs)
          + length (validate_cidrs ipnet cidrs)
          + length (blank_entries cidrs)
        ≡ length cidrs
  unfolding parse_entries validate_cidrs blank_entries
  parse_entries_partition [] = refl
  parse_entries_partition (s ∷ cidrs) = ground (arith, parse_entries_partition cidrs)

  length-nil : (nets : List N) → length nets ≡ 0 → nets ≡ []
  length-nil [] h = refl
  length-nil (n ∷ nets) h = absurd (omega arith)

  -- An allow list in which every entry is blank or invalid, without a deny list, allows everybody.
  pub from_cidrs_open :
      (cidrs : List Text) (ip : IpAddr)
      → length (validate_cidrs ipnet cidrs) + length (blank_entries cidrs) ≡ length cidrs
      → is_allowed {N = N} (from_cidrs cidrs []) ip ≡ true
  unfolding from_cidrs is_allowed
  from_cidrs_open cidrs ip h =
      rw (length-nil (parse_entries {N = N} cidrs) (omega (arith, parse_entries_partition cidrs)))
