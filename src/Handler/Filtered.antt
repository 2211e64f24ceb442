-- ===== src/Handler/Filtered.antt =====
-- src/dns/handler.rs: how the rules of a client's groups and the global rules decide together.
use rust_dns_backend.Base.{
  ◌≡◌, refl, ◌↔◌, ◌⊎◌, inl, inr, true, none, some, arith, Bool-cases, Option-cases,
}
use rust_dns_backend.Text.{Text, Unicode}
use rust_dns_backend.Rules.{
  MatchResult, blocked, allowed, no_match, RegexCrate, RuleSet, match_domain,
}
use rust_dns_backend.Client.{ClientConfig}
use rust_dns_backend.Filter.{engine_is_blocked}
use rust_dns_backend.Handler.State.{HandlerState}
use rust_dns_backend.Handler.Steps.{domain_normalized, is_filtered}

MatchResult-cases : (r : MatchResult) → (r ≡ blocked) ⊎ ((r ≡ allowed) ⊎ (r ≡ no_match))
MatchResult-cases blocked = inl refl
MatchResult-cases allowed = inr (inl refl)
MatchResult-cases no_match = inr (inr refl)

module _ ⦃u : Unicode⦄ {N S R C D E : Type 0} ⦃re : RegexCrate S⦄ where
  -- Whether a name is blocked for a client: only when filtering is on for it, and then by the rules of
  -- its groups if they block the name, or by the global rules if the groups have no rules or none that
  -- fits. A rule of the groups that allows the name overrides the global rules.
  pub is_filtered_iff :
      (c : ClientConfig S) (s : HandlerState N S R C D E) (domain : Text)
      → (is_filtered c s domain ≡ true) ↔ (
          (c.filter_enabled ≡ true)
          × (((rules : RuleSet S) × (c.group_ruleset ≡ some rules)
                × (match_domain rules (domain_normalized domain) ≡ blocked))
              ⊎ ((engine_is_blocked s.filter (domain_normalized domain) ≡ true)
                  × ((c.group_ruleset ≡ none)
                      ⊎ ((rules : RuleSet S) × (c.group_ruleset ≡ some rules)
                          × (match_domain rules (domain_normalized domain) ≡ no_match))))))
  unfolding is_filtered
  is_filtered_iff c s domain = elim (Bool-cases c.filter_enabled) [
    | inr e ↦ (λ h. absurd (ground arith), λ (k, h). absurd (ground arith))
    | inl e ↦ elim (Option-cases c.group_ruleset) [
      | inl k ↦ (
        λ h. (e, inr (ground arith, inl k)),
        λ (j, h). elim h [ inl (rules, i, m) ↦ absurd (ground arith) | inr (b, i) ↦ rw (e, k) b ],
      )
      | inr (rules, k) ↦ elim (MatchResult-cases (match_domain rules (domain_normalized domain))) [
        | inl m ↦ (λ h. (e, inl (rules, k, m)), λ h. rw (e, k, m, is_filtered) refl)
        | inr (inl m) ↦ (
          λ h. absurd (ground arith),
          λ (j, h). elim h [
            | inl (other, i, n) ↦
                let same : rules ≡ other = ground arith in absurd (ground (arith, same, m, n))
            | inr (b, inl i) ↦ absurd (ground arith)
            | inr (b, inr (other, i, n)) ↦
                let same : rules ≡ other = ground arith in absurd (ground (arith, same, m, n))
          ],
        )
        | inr (inr m) ↦ (
          λ h. (e, inr (ground arith, inr (rules, k, m))),
          λ (j, h). elim h [
            | inl (other, i, n) ↦
                let same : rules ≡ other = ground arith in absurd (ground (arith, same, m, n))
            | inr (b, i) ↦ rw (e, k, m, is_filtered) b
          ],
        )
      ]
    ]
  ]
