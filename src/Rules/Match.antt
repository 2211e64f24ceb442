-- ===== src/Rules/Match.antt =====
-- src/dns/rules.rs, `matches_set`, `matches_wildcard_set` and `match_domain` against what they
-- decide: whether a name or one of its parents is in a set.
use rust_dns_backend.Base.{
  ℕ, zero, suc, ◌<◌, ◌≡◌, refl, sym, ap, ◌∙◌, ◌≢◌, ◌↔◌, ◌⊎◌, inl, inr, Bool, true, none, some, List,
  [], ◌∷◌, ◌++◌, ◌==◌, arith, Bool-cases, Option-cases, length, In, any-In, In-any, append_assoc,
}
use mathlib.Core.Path.{subst}
use rust_dns_backend.Text.{Text, text_eq, after}
use rust_dns_backend.Text.Laws.{text_eq_iff, text_eq_refl, after_inv, after-lt}
use rust_dns_backend.Rules.{set_contains, walk_parents, matches_set}

-- `d` is `name` itself, or what stands behind one of its dots.
abbrev pub IsAncestor : Text → Text → Type 0
IsAncestor d name = (name ≡ d) ⊎ ((p : Text) × (name ≡ p ++ b'.' ∷ d))

-- A parent's ancestor is an ancestor.
IsAncestor-after :
    {d name parent : Text} → after b'.' name ≡ some parent → IsAncestor d parent → IsAncestor d name
IsAncestor-after {name} h (inl e) =
    let (p, q) = after_inv b'.' name h in inr (p, q ∙ ap (λ (r : Text). p ++ b'.' ∷ r) e)
IsAncestor-after {d} {name} h (inr (q, e)) =
    let (p, f) = after_inv b'.' name h in
    inr (
      p ++ b'.' ∷ q,
      f ∙ (ap (λ (r : Text). p ++ b'.' ∷ r) e ∙ sym (append_assoc p (b'.' ∷ q) (b'.' ∷ d))),
    )

-- What stands behind a dot is an ancestor of the parent.
after-IsAncestor :
    (p d : Text) {parent : Text} → after b'.' (p ++ b'.' ∷ d) ≡ some parent → IsAncestor d parent
unfolding after
after-IsAncestor [] d h = inl (ground arith)
after-IsAncestor (x ∷ p) d {parent} h = elim (Bool-cases (x == b'.')) [
  | inl e ↦ inr (p, ground arith)
  | inr e ↦ after-IsAncestor p d (ground arith)
]

after-ne-none : (p d : Text) → after b'.' (p ++ b'.' ∷ d) ≢ none
unfolding after
after-ne-none [] d h = ground arith
after-ne-none (x ∷ p) d h = ground (arith, after-ne-none p d)

walk_parents_sound :
    (hit : Text → Bool) (fuel : ℕ) (name : Text)
    → walk_parents hit fuel name ≡ true
    → (d : Text) × IsAncestor d name × (hit d ≡ true)
unfolding walk_parents
walk_parents_sound hit zero name h = cc
walk_parents_sound hit (suc fuel) name h = elim (Bool-cases (hit name)) [
  | inl e ↦ (name, inl refl, e)
  | inr e ↦ elim (Option-cases (after b'.' name)) [
    | inl n ↦ absurd (ground arith)
    | inr (parent, q) ↦
        let (d, a, k) = walk_parents_sound hit fuel parent (ground arith) in
        (d, IsAncestor-after q a, k)
  ]
]

-- With as much fuel as the name has characters, and one more, no ancestor is missed.
walk_parents_complete :
    (hit : Text → Bool) (fuel : ℕ) (name d : Text)
    → length name < fuel
    → IsAncestor d name
    → hit d ≡ true
    → walk_parents hit fuel name ≡ true
unfolding walk_parents
walk_parents_complete hit zero name d lt a h = absurd (omega arith)
walk_parents_complete hit (suc fuel) name d lt (inl e) h =
    let here : hit name ≡ true = rw e h in ground arith
walk_parents_complete hit (suc fuel) name d lt (inr (p, e)) h = elim (Bool-cases (hit name)) [
  | inl k ↦ ground arith
  | inr k ↦ elim (Option-cases (after b'.' name)) [
    | inl n ↦ absurd (after-ne-none p d (rw e at n))
    | inr (parent, q) ↦
        let rest : walk_parents hit fuel parent ≡ true =
          walk_parents_complete hit fuel parent d (omega (arith, after-lt b'.' name q))
            (after-IsAncestor p d (rw e at q)) h in
        ground arith
  ]
]

pub walk_parents_iff :
    (hit : Text → Bool) (name : Text)
    → (walk_parents hit (suc (length name)) name ≡ true)
      ↔ ((d : Text) × IsAncestor d name × (hit d ≡ true))
walk_parents_iff hit name = (
  walk_parents_sound hit (suc (length name)) name,
  λ (d, a, h). walk_parents_complete hit (suc (length name)) name d (omega arith) a h,
)

pub set_contains_iff : (d : Text) (ds : List Text) → (set_contains d ds ≡ true) ↔ In d ds
unfolding set_contains
set_contains_iff d ds = (
  λ h.
      let (e, m, q) = any-In (text_eq d) ds h in
      subst (λ (x : Text). In x ds) (sym ((text_eq_iff d e).0 q)) m,
  λ m. In-any (text_eq d) ds m (text_eq_refl d),
)

-- A name is matched by a set exactly when the set holds the name itself or one of its parent
-- domains; the walk over the parents never stops early.
pub matches_set_iff :
    (name : Text) (set : List Text)
    → (matches_set name set ≡ true) ↔ ((d : Text) × IsAncestor d name × In d set)
unfolding matches_set
matches_set_iff name set = (
  λ h.
      let (d, a, k) = (walk_parents_iff (λ d. set_contains d set) name).0 h in
      (d, a, (set_contains_iff d set).0 k),
  λ (d, a, m).
      (walk_parents_iff (λ d. set_contains d set) name).1 (d, a, (set_contains_iff d set).1 m),
)

-- The names below `name` have its ancestors too.
pub IsAncestor-sub :
    {d name : Text} (sub : Text) → IsAncestor d name → IsAncestor d (sub ++ b'.' ∷ name)
IsAncestor-sub sub (inl e) = inr (sub, ap (λ (r : Text). sub ++ b'.' ∷ r) e)
IsAncestor-sub {d} sub (inr (p, e)) = inr (
  sub ++ b'.' ∷ p,
  ap (λ (r : Text). sub ++ b'.' ∷ r) e ∙ sym (append_assoc sub (b'.' ∷ p) (b'.' ∷ d)),
)
