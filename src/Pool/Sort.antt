-- ===== src/Pool/Sort.antt =====
-- src/dns/upstream_pool.rs, `sort_by_key`: it permutes, and orders by the key.
use mathlib.Core.Path.{subst}
use rust_dns_backend.Base.{
  In, here, there, ◌≡◌, refl, true, List, [], ◌∷◌, All, Bool-cases, inl, inr, ℤ, leb_ℤ, leb_ℤ_total,
  leb_ℤ_trans,
}
use mathlib.Core.List.{Permᴰ}
use mathlib.Core.List.Permᴰ
use rust_dns_backend.Pool.{insert_by, sort_by_key}

-- Each element's key is at most those behind it.
abbrev pub SortedBy {ℓ} : {A : Type ℓ} → (A → ℤ) → List A → Type 0
SortedBy key [] = Unit
SortedBy key (x ∷ xs) = All (λ y. leb_ℤ (key x) (key y) ≡ true) xs × SortedBy key xs

module _ {A : Type 0} where
  pub All-perm : (P : A → Type 0) {xs ys : List A} → Permᴰ xs ys → All P xs → All P ys
  All-perm P Permᴰ.nil h = h
  All-perm P (Permᴰ.cons e p) (h, t) = (subst P e h, All-perm P p t)
  All-perm P (Permᴰ.swap e f) h = (subst P f h.1.0, (subst P e h.0, h.1.1))
  All-perm P (Permᴰ.trans p q) h = All-perm P q (All-perm P p h)

  pub In-perm : {a : A} {xs ys : List A} → Permᴰ xs ys → In a xs → In a ys
  In-perm Permᴰ.nil i = elim i [ ]
  In-perm (Permᴰ.cons e p) here = rw e here
  In-perm (Permᴰ.cons e p) (there i) = there (In-perm p i)
  In-perm (Permᴰ.swap e f) here = rw e (there here)
  In-perm (Permᴰ.swap e f) (there here) = rw f here
  In-perm (Permᴰ.swap e f) (there (there i)) = there (there i)
  In-perm (Permᴰ.trans p q) i = In-perm q (In-perm p i)

module _ {A : Type 0} (key : A → ℤ) where
  insert_by-perm : (x : A) (ys : List A) → Permᴰ (x ∷ ys) (insert_by key x ys)
  unfolding insert_by
  insert_by-perm x [] = Permᴰ.refl (x ∷ [])
  insert_by-perm x (y ∷ ys) = elim (Bool-cases (leb_ℤ (key x) (key y))) [
    | inl e ↦ rw e (Permᴰ.refl (x ∷ y ∷ ys))
    | inr e ↦ rw e (Permᴰ.trans (Permᴰ.swap refl refl) (Permᴰ.cons refl (insert_by-perm x ys)))
  ]

  pub sort_by_key-perm : (xs : List A) → Permᴰ xs (sort_by_key key xs)
  unfolding sort_by_key
  sort_by_key-perm [] = Permᴰ.nil
  sort_by_key-perm (x ∷ xs) =
      Permᴰ.trans (Permᴰ.cons refl (sort_by_key-perm xs)) (insert_by-perm x (sort_by_key key xs))

  All-trans :
      (a b : A) (ys : List A)
      → leb_ℤ (key a) (key b) ≡ true
      → All (λ y. leb_ℤ (key b) (key y) ≡ true) ys
      → All (λ y. leb_ℤ (key a) (key y) ≡ true) ys
  All-trans a b [] h k = tt
  All-trans a b (y ∷ ys) h k = (leb_ℤ_trans (key a) (key b) (key y) h k.0, All-trans a b ys h k.1)

  insert_by-SortedBy : (x : A) (ys : List A) → SortedBy key ys → SortedBy key (insert_by key x ys)
  unfolding insert_by
  insert_by-SortedBy x [] s = (tt, tt)
  insert_by-SortedBy x (y ∷ ys) s = elim (Bool-cases (leb_ℤ (key x) (key y))) [
    | inl e ↦ rw e ((e, All-trans x y ys e s.0), s)
    | inr e ↦ rw e (
      All-perm (λ z. leb_ℤ (key y) (key z) ≡ true) (insert_by-perm x ys)
          (leb_ℤ_total (key x) (key y) e, s.0),
      insert_by-SortedBy x ys s.1,
    )
  ]

  pub sort_by_key-SortedBy : (xs : List A) → SortedBy key (sort_by_key key xs)
  unfolding sort_by_key
  sort_by_key-SortedBy [] = tt
  sort_by_key-SortedBy (x ∷ xs) =
      insert_by-SortedBy x (sort_by_key key xs) (sort_by_key-SortedBy xs)
