-- ===== src/Map.antt =====
-- `HashMap<String, V>` as an association list that holds each key once.
use rust_dns_backend.Base.{
  ◌≡◌, refl, Option, none, some, List, [], ◌∷◌, arith, if◌then◌else◌, Bool-cases, inl, inr, In,
  here, there,
}
use rust_dns_backend.Text.{Text, text_eq}
use rust_dns_backend.Text.Laws.{text_eq_iff, text_eq_refl}

abbrev pub Map {ℓ} : Type ℓ → Type ℓ
Map V = List (Text × V)

module _ {ℓ} {V : Type ℓ} where
  unfoldable pub map_get : Text → Map V → Option V
  unfolding text_eq
  map_get k [] = none
  map_get k ((j, v) ∷ m) = if text_eq j k then some v else map_get k m

  unfoldable pub map_insert : Text → V → Map V → Map V
  unfolding text_eq
  map_insert k v [] = (k, v) ∷ []
  map_insert k v ((j, w) ∷ m) = if text_eq j k then (k, v) ∷ m else (j, w) ∷ map_insert k v m

  unfoldable pub map_remove : Text → Map V → Map V
  unfolding text_eq
  map_remove k [] = []
  map_remove k ((j, w) ∷ m) =
      let rest = map_remove k m in if text_eq j k then rest else (j, w) ∷ rest

  pub map_get-insert :
      (k j : Text) (v : V) (m : Map V)
      → map_get j (map_insert k v m) ≡ (if text_eq k j then some v else map_get j m)
  unfolding map_get map_insert
  map_get-insert k j v [] = refl
  map_get-insert k j v ((i, w) ∷ m) =
      ground (arith, text_eq_iff k j, text_eq_iff i k, text_eq_iff i j, map_get-insert k j v m)

  pub map_get-remove :
      (k j : Text) (m : Map V)
      → map_get j (map_remove k m) ≡ (if text_eq k j then none else map_get j m)
  unfolding map_get map_remove
  map_get-remove k j [] = ground arith
  map_get-remove k j ((i, w) ∷ m) =
      ground (arith, text_eq_iff k j, text_eq_iff i k, text_eq_iff i j, map_get-remove k j m)

  pub map_get-insert_self : (k : Text) (v : V) (m : Map V) → map_get k (map_insert k v m) ≡ some v
  map_get-insert_self k v m = rw (map_get-insert k k v m, text_eq_refl k)

  -- What a key is found at stands in the list.
  pub map_get-In : (k : Text) (m : Map V) {v : V} → map_get k m ≡ some v → In (k, v) m
  unfolding map_get
  map_get-In k [] h = cc
  map_get-In k ((j, w) ∷ m) {v} h = elim (Bool-cases (text_eq j k)) [
    | inl e ↦
        let same : j ≡ k = (text_eq_iff j k).0 e in
        let found : w ≡ v = ground arith in rw (same, found) here
    | inr e ↦ there (map_get-In k m (rw e at h))
  ]
