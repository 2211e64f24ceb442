-- ===== src/Base/Lists.antt =====
-- Lists measured by native numbers, under the library's names, and predicates over their members.
use Prim.Native.Nat.{ℕ, suc, ◌+◌}
use mathlib.Core.Path.{refl, ap, ◌≡◌}
use mathlib.Core.Bool.{Bool, true, false, ◌||◌, ◌&&◌}
use mathlib.Core.List.{List, [], ◌∷◌, ◌++◌}
use mathlib.Core.Logic.{◌⊎◌, inl, inr}
use native.Mathlib.Omega.{arith}
use rust_dns_backend.Base.Test.{if◌then◌else◌, or_inv}

module _ {ℓ} {A : Type ℓ} where
  abbrev pub length : List A → ℕ
  length [] = 0
  length (x ∷ xs) = suc (length xs)

  -- `is_empty`
  abbrev pub is_nil : List A → Bool
  is_nil [] = true
  is_nil (x ∷ xs) = false

  -- `iter().any(p)` and `iter().all(p)`.
  unfoldable pub any : (A → Bool) → List A → Bool
  any p [] = false
  any p (x ∷ xs) = p x || any p xs

  unfoldable pub all : (A → Bool) → List A → Bool
  all p [] = true
  all p (x ∷ xs) = p x && all p xs

  -- `first().unwrap_or(d)`
  abbrev pub head_or : List A → A → A
  head_or [] d = d
  head_or (x ∷ xs) d = x

  -- `filter(p)`, by a Boolean test.
  unfoldable pub keep_if : (A → Bool) → List A → List A
  keep_if p [] = []
  keep_if p (x ∷ xs) = let rest = keep_if p xs in if p x then x ∷ rest else rest

  pub append_nil : (xs : List A) → xs ++ [] ≡ xs
  append_nil [] = refl
  append_nil (x ∷ xs) = ap (λ t. x ∷ t) (append_nil xs)

  pub length-append : (xs ys : List A) → length (xs ++ ys) ≡ length xs + length ys
  length-append [] ys = omega arith
  length-append (x ∷ xs) ys = omega (arith, length-append xs ys)

-- `a` stands in the list, at a known place.
pub data In {ℓ} {A : Type ℓ} (a : A) : List A → Type ℓ where
  here : {xs : List A} → In a (a ∷ xs)
  there : {x : A} {xs : List A} → In a xs → In a (x ∷ xs)

abbrev pub All {ℓ κ} : {A : Type ℓ} → (A → Type κ) → List A → Type κ
All P [] = Unit
All P (x ∷ xs) = P x × All P xs

module _ {ℓ} {A : Type ℓ} where
  pub any-In : (p : A → Bool) (xs : List A) → any p xs ≡ true → (a : A) × In a xs × (p a ≡ true)
  unfolding any
  any-In p [] h = cc
  any-In p (x ∷ xs) h = elim (or_inv (p x) (any p xs) h) [
    | inl e ↦ (x, here, e)
    | inr k ↦ let (a, m, q) = any-In p xs k in (a, there m, q)
  ]

  pub In-any : (p : A → Bool) (xs : List A) {a : A} → In a xs → p a ≡ true → any p xs ≡ true
  unfolding any
  In-any p [] m h = elim m [ ]
  In-any p (x ∷ xs) here h = rw h
  In-any p (x ∷ xs) (there m) h = ground (arith, In-any p xs m h)

  pub any_mono :
      (p q : A → Bool) (xs : List A)
      → ((a : A) → p a ≡ true → q a ≡ true)
      → any p xs ≡ true
      → any q xs ≡ true
  any_mono p q xs k h = let (a, m, e) = any-In p xs h in In-any q xs m (k a e)

  pub In-append_left : {a : A} (xs ys : List A) → In a xs → In a (xs ++ ys)
  In-append_left [] ys m = elim m [ ]
  In-append_left (x ∷ xs) ys here = here
  In-append_left (x ∷ xs) ys (there m) = there (In-append_left xs ys m)

  pub In-append_right : {a : A} (xs ys : List A) → In a ys → In a (xs ++ ys)
  In-append_right [] ys m = m
  In-append_right (x ∷ xs) ys m = there (In-append_right xs ys m)

  pub In-append_inv : {a : A} (xs ys : List A) → In a (xs ++ ys) → In a xs ⊎ In a ys
  In-append_inv [] ys m = inr m
  In-append_inv (x ∷ xs) ys here = inl here
  In-append_inv (x ∷ xs) ys (there m) = elim (In-append_inv xs ys m) [
    | inl l ↦ inl (there l)
    | inr r ↦ inr r
  ]

  pub All-In {κ} : (P : A → Type κ) {a : A} (xs : List A) → All P xs → In a xs → P a
  All-In P [] h m = elim m [ ]
  All-In P (x ∷ xs) h here = h.0
  All-In P (x ∷ xs) h (there m) = All-In P xs h.1 m

  pub All-append {κ} : (P : A → Type κ) (xs ys : List A) → All P xs → All P ys → All P (xs ++ ys)
  All-append P [] ys h k = k
  All-append P (x ∷ xs) ys h k = (h.0, All-append P xs ys h.1 k)

  pub All-weaken {κ κ'} :
      (P : A → Type κ) (Q : A → Type κ') (xs : List A) → ((a : A) → P a → Q a) → All P xs → All Q xs
  All-weaken P Q [] f h = tt
  All-weaken P Q (x ∷ xs) f h = (f x h.0, All-weaken P Q xs f h.1)
