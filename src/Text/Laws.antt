-- ===== src/Text/Laws.antt =====
-- Laws of the text operations: equality, and the slice behind a character.
use rust_dns_backend.Base.{
  any, ℕ, ◌≡◌, ◌<◌, ◌↔◌, refl, ap, true, some, [], ◌∷◌, ◌++◌, ◌==◌, arith, Bool-cases, length, inl,
  inr,
}
use rust_dns_backend.Text.{Text, text_eq, after, contains}

pub text_eq→≡ : (s t : Text) → text_eq s t ≡ true → s ≡ t
unfolding text_eq
text_eq→≡ [] [] h = refl
text_eq→≡ [] (y ∷ ys) h = cc
text_eq→≡ (x ∷ xs) [] h = cc
text_eq→≡ (x ∷ xs) (y ∷ ys) h = ground (arith, text_eq→≡ xs ys)

pub text_eq_refl : (s : Text) → text_eq s s ≡ true
unfolding text_eq
text_eq_refl [] = refl
text_eq_refl (x ∷ xs) = ground (arith, text_eq_refl xs)

pub text_eq_iff : (s t : Text) → (text_eq s t ≡ true) ↔ (s ≡ t)
text_eq_iff s t = (text_eq→≡ s t, λ e. rw (← e) (text_eq_refl s))

-- The slice behind a character is what stands behind it, and is shorter.
pub after_inv : (c : ℕ) (s : Text) {t : Text} → after c s ≡ some t → (p : Text) × (s ≡ p ++ c ∷ t)
unfolding after
after_inv c [] h = cc
after_inv c (x ∷ s) {t} h = elim (Bool-cases (x == c)) [
  | inl e ↦ ([], ground arith)
  | inr e ↦ let (p, q) = after_inv c s {t = t} (ground arith) in (x ∷ p, ap (λ r. x ∷ r) q)
]

pub after-lt : (c : ℕ) (s : Text) {t : Text} → after c s ≡ some t → length t < length s
unfolding after
after-lt c [] h = cc
after-lt c (x ∷ s) {t} h = ground (arith, after-lt c s {t = t})

pub contains-append : (c : ℕ) (s t : Text) → contains c (s ++ c ∷ t) ≡ true
unfolding contains any
contains-append c [] t = ground arith
contains-append c (x ∷ s) t = ground (arith, contains-append c s t)
