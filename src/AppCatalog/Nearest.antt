-- ===== src/AppCatalog/Nearest.antt =====
-- src/db/app_catalog_cache.rs: the match by parts is a climb from the name to its parents.
use rust_dns_backend.Base.{
  ℤ, ℕ, zero, suc, ◌≤◌, ◌≡◌, refl, sym, ap, ◌∙◌, inl, inr, Option, none, some, List, [], ◌∷◌, ◌==◌,
  arith, Bool-cases, Option-cases, length,
}
use rust_dns_backend.Text.{Text, after, trim_end}
use rust_dns_backend.Text.Laws.{after-lt}
use rust_dns_backend.Text.Split.{onto_first, split_by, split, join}
use rust_dns_backend.Map.{Map, map_get}
use rust_dns_backend.AppCatalog.{match_parents, match_app}

-- The entry of the name itself or of the first parent that has one; each step shortens the name, so
-- that fuel above its length is enough.
unfoldable pub nearest : Map ℤ → ℕ → Text → Option ℤ
nearest cache zero s = none
nearest cache (suc fuel) s = elim (map_get s cache) [
  | some app_id ↦ some app_id
  | none ↦ elim (after b'.' s) [ none ↦ none | some parent ↦ nearest cache fuel parent ]
]

onto_first_cons :
    (x : ℕ) (ps : List Text) → (p : Text) × (rest : List Text) × (onto_first x ps ≡ p ∷ rest)
onto_first_cons x [] = (x ∷ [], [], refl)
onto_first_cons x (p ∷ ps) = (x ∷ p, ps, refl)

split_cons : (s : Text) → (p : Text) × (rest : List Text) × (split b'.' s ≡ p ∷ rest)
unfolding split split_by
split_cons [] = ([], [], refl)
split_cons (x ∷ s) = elim (Bool-cases (x == b'.')) [
  | inl e ↦ ([], split b'.' s, rw e refl)
  | inr e ↦ rw e (onto_first_cons x (split b'.' s))
]

-- Behind the first dot, the parts are those of the parent.
split-after-some :
    (s : Text) {t : Text} → after b'.' s ≡ some t → (p : Text) × (split b'.' s ≡ p ∷ split b'.' t)
unfolding split split_by after
split-after-some [] h = cc
split-after-some (x ∷ s) {t} h = elim (Bool-cases (x == b'.')) [
  | inl e ↦ let same : s ≡ t = ground arith in ([], rw (e, same) refl)
  | inr e ↦ let (p, q) = split-after-some s (rw e at h) in (x ∷ p, rw (e, q) refl)
]

split-after-none : (s : Text) → after b'.' s ≡ none → split b'.' s ≡ s ∷ []
unfolding split split_by after
split-after-none [] h = refl
split-after-none (x ∷ s) h = elim (Bool-cases (x == b'.')) [
  | inl e ↦ absurd (ground arith)
  | inr e ↦ rw (e, split-after-none s (rw e at h)) refl
]

join-cons : (x : ℕ) (ps : List Text) → join (b'.' ∷ []) (onto_first x ps) ≡ x ∷ join (b'.' ∷ []) ps
unfolding join
join-cons x [] = refl
join-cons x (p ∷ []) = refl
join-cons x (p ∷ q ∷ ps) = refl

join_dot :
    (ps : List Text) {p : Text} {rest : List Text}
    → ps ≡ p ∷ rest
    → join (b'.' ∷ []) ([] ∷ ps) ≡ b'.' ∷ join (b'.' ∷ []) ps
unfolding join
join_dot ps q = rw q refl

join-split : (s : Text) → join (b'.' ∷ []) (split b'.' s) ≡ s
unfolding split split_by
join-split [] = unfold join in refl
join-split (x ∷ s) = elim (Bool-cases (x == b'.')) [
  | inl e ↦
      let (p, rest, q) = split_cons s in
      let dot : x ≡ b'.' = ground arith in
      rw e (
        join_dot (split b'.' s) q ∙ (ap (λ t. b'.' ∷ t) (join-split s) ∙ ap (λ c. c ∷ s) (sym dot)))
  | inr e ↦ rw (e, join-cons x (split b'.' s)) (ap (λ t. x ∷ t) (join-split s))
]

parents_step :
    (cache : Map ℤ) (p : Text) (ps : List Text) {q : Text} {rest : List Text}
    → ps ≡ q ∷ rest
    → match_parents cache (p ∷ ps) ≡ (elim (map_get (join (b'.' ∷ []) ps) cache) [
      | some app_id ↦ some app_id
      | none ↦ match_parents cache ps
    ])
unfolding match_parents
parents_step cache p [] h = cc
parents_step cache p (x ∷ xs) h = refl

nearest_miss :
    (cache : Map ℤ) (fuel : ℕ) (s : Text)
    → map_get s cache ≡ none
    → nearest cache (suc fuel) s
      ≡ (elim (after b'.' s) [ none ↦ none | some t ↦ nearest cache fuel t ])
unfolding nearest
nearest_miss cache fuel s e = rw (e, nearest) refl

match_parents_lem :
    (cache : Map ℤ) (fuel : ℕ) (s : Text)
    → length s ≤ fuel
    → match_parents cache (split b'.' s)
      ≡ (elim (after b'.' s) [ none ↦ none | some t ↦ nearest cache fuel t ])
unfolding match_parents nearest
match_parents_lem cache zero s h = elim (Option-cases (after b'.' s)) [
  | inl n ↦ rw (n, split-after-none s n) refl
  | inr (t, e) ↦ let shorter = after-lt b'.' s e in absurd (omega arith)
]
match_parents_lem cache (suc fuel) s h = elim (Option-cases (after b'.' s)) [
  | inl n ↦ rw (n, split-after-none s n) refl
  | inr (t, e) ↦
      let shorter = after-lt b'.' s e in
      let (p, parts) = split-after-some s e in
      let (q, rest, cons) = split_cons t in
      rw (e, parts)
        (parents_step cache p (split b'.' t) cons
          ∙ rw (join-split t) (elim (Option-cases (map_get t cache)) [
            | inl k ↦
                rw k
                  (match_parents_lem cache fuel t (omega arith) ∙ sym (nearest_miss cache fuel t k))
            | inr (app_id, k) ↦ rw (k, nearest) refl
          ]))
]

nearest-nil : (fuel : ℕ) (s : Text) → nearest [] fuel s ≡ none
unfolding nearest map_get
nearest-nil zero s = refl
nearest-nil (suc fuel) s = elim (Option-cases (after b'.' s)) [
  | inl n ↦ rw (n, nearest) refl
  | inr (t, e) ↦ rw (e, nearest) (nearest-nil fuel t)
]

-- The application of a name, without its trailing dots, is that of the name itself or else of its
-- nearest parent that the catalogue has.
pub match_app_lem :
    (cache : Map ℤ) (domain : Text)
    → match_app cache domain
      ≡ nearest cache (suc (length (trim_end b'.' domain))) (trim_end b'.' domain)
unfolding match_app nearest
match_app_lem [] domain =
    sym (nearest-nil (suc (length (trim_end b'.' domain))) (trim_end b'.' domain))
match_app_lem (row ∷ cache) domain =
    let name = trim_end b'.' domain in
    elim (Option-cases (map_get name (row ∷ cache))) [
      | inr (app_id, e) ↦ rw (e, nearest) refl
      | inl e ↦ rw e (
          match_parents_lem (row ∷ cache) (length name) name (omega arith)
          ∙ sym (nearest_miss (row ∷ cache) (length name) name e))
    ]
