-- ===== src/Subscription/Kinds.antt =====
-- src/dns/subscription.rs, `parse_adguard_rules`: which side a line's rule falls on.
use rust_dns_backend.Base.{
  ◌≡◌, refl, inl, inr, Bool, true, false, ◌&&◌, ◌||◌, List, [], ◌∷◌, ◌==◌, arith, any, All,
  Bool-cases, Option-cases, if◌then◌else◌,
}
use rust_dns_backend.Text.{Text, Unicode, codes, strip_prefix, starts_with, contains, trim}
use rust_dns_backend.Text.Split.{lines}
use rust_dns_backend.Rules.Forms.{block_rule, allow_rule}
use rust_dns_backend.Subscription.{
  ListRule, block_line, allow_line, no_rule, dotted_rule, plain_rule, wildcard_rule, captured_rule,
  captures_exception, captures_domain_rule, is_ignored, list_rule, list_rules, parse_adguard_rules,
  push_rule,
}

abbrev pub is_exception : Text → Bool
is_exception r = starts_with (codes "@@") r

-- A rule that blocks is no exception, and one that allows is.
abbrev OnItsSide : ListRule → Type 0
OnItsSide (block_line r) = is_exception r ≡ false
OnItsSide (allow_line r) = is_exception r ≡ true
OnItsSide no_rule = Unit

if-OnItsSide :
    (b : Bool) (x y : ListRule)
    → (b ≡ true → OnItsSide x)
    → OnItsSide y
    → OnItsSide (if b then x else y)
if-OnItsSide true x y h k = h refl
if-OnItsSide false x y h k = k

block_rule-blocking : (d : Text) → is_exception (block_rule d) ≡ false
unfolding block_rule starts_with strip_prefix
block_rule-blocking d = refl

allow_rule-exception : (d : Text) → is_exception (allow_rule d) ≡ true
unfolding allow_rule starts_with strip_prefix
allow_rule-exception d = refl

bars-blocking : (s : Text) → starts_with (codes "||") s ≡ true → is_exception s ≡ false
unfolding starts_with strip_prefix
bars-blocking [] h = cc
bars-blocking (c ∷ s) h = ground arith

ats-exception : (s : Text) → starts_with (codes "@@||") s ≡ true → is_exception s ≡ true
unfolding starts_with strip_prefix
ats-exception [] h = cc
ats-exception (a ∷ []) h = ground arith
ats-exception (a ∷ b ∷ s) h = ground arith

and_left : (a b : Bool) → (a && b) ≡ true → a ≡ true
and_left true b h = refl
and_left false b h = h

blocked_or_none :
    (b : Bool) (d : Text) → OnItsSide (if b then block_line (block_rule d) else no_rule)
blocked_or_none true d = block_rule-blocking d
blocked_or_none false d = tt

dotted_rule-OnItsSide : (inner : Text) → OnItsSide (dotted_rule inner)
unfolding dotted_rule
dotted_rule-OnItsSide inner = search blocked_or_none

plain_rule-OnItsSide : (line : Text) → OnItsSide (plain_rule line)
unfolding plain_rule
plain_rule-OnItsSide line =
    elim (Bool-cases (any (λ c. c == b'/' || c == b':' || c == b'*' || c == b'|') line)) [
      | inl e ↦ rw e tt
      | inr e ↦ rw e (search blocked_or_none)
    ]

wildcard_rule-OnItsSide : (line : Text) → OnItsSide (wildcard_rule line)
unfolding wildcard_rule
wildcard_rule-OnItsSide line =
    if-OnItsSide (starts_with (codes "@@||") line && contains b'*' line) (allow_line line) _
      (λ e. ats-exception line (and_left _ _ e))
      (if-OnItsSide (starts_with (codes "||") line && contains b'*' line) (block_line line) _
        (λ e. bars-blocking line (and_left _ _ e)) (plain_rule-OnItsSide line))

captured_rule-OnItsSide : (line : Text) → OnItsSide (captured_rule line)
unfolding captured_rule
captured_rule-OnItsSide line = elim (Option-cases (captures_exception line)) [
  | inr (d, e) ↦ rw e (allow_rule-exception d)
  | inl e ↦ elim (Option-cases (captures_domain_rule line)) [
    | inr (d, k) ↦ rw (e, k) (block_rule-blocking d)
    | inl k ↦ rw (e, k) (wildcard_rule-OnItsSide line)
  ]
]

list_rule-OnItsSide : (line : Text) → OnItsSide (list_rule line)
unfolding list_rule
list_rule-OnItsSide [] = tt
list_rule-OnItsSide (c ∷ []) =
    if-OnItsSide (is_ignored (c ∷ [])) no_rule _ (λ e. tt) (captured_rule-OnItsSide (c ∷ []))
list_rule-OnItsSide (c ∷ d ∷ s) =
    if-OnItsSide (is_ignored (c ∷ d ∷ s)) no_rule _ (λ e. tt)
      (if-OnItsSide (c == b'.') _ _ (λ e. dotted_rule-OnItsSide (d ∷ s))
        (captured_rule-OnItsSide (c ∷ d ∷ s)))

-- Both lists on their sides.
abbrev pub Separated : List Text × List Text → Type 0
Separated rules =
    All (λ r. is_exception r ≡ false) rules.0 × All (λ r. is_exception r ≡ true) rules.1

push_rule-Separated :
    (r : ListRule) (rules : List Text × List Text)
    → OnItsSide r
    → Separated rules
    → Separated (push_rule r rules)
push_rule-Separated (block_line r) rules h s = ((h, s.0), s.1)
push_rule-Separated (allow_line r) rules h s = (s.0, (h, s.1))
push_rule-Separated no_rule rules h s = s

module _ ⦃u : Unicode⦄ where
  list_rules-Separated : (ls : List Text) → Separated (list_rules ls)
  unfolding list_rules
  list_rules-Separated [] = (tt, tt)
  list_rules-Separated (l ∷ ls) =
      push_rule-Separated (list_rule (trim l)) (list_rules ls) (list_rule-OnItsSide (trim l))
        (list_rules-Separated ls)

  -- Whatever a filter list contains, no rule that is stored as blocking is an exception rule, and
  -- every rule that is stored as allowing is one.
  pub parse_adguard_rules-Separated : (content : Text) → Separated (parse_adguard_rules content)
  unfolding parse_adguard_rules
  parse_adguard_rules-Separated content = list_rules-Separated (lines content)
