-- ===== src/Text/SplitLaws.antt =====
-- Laws of `split` and of the trimming operations.
use rust_dns_backend.Base.{
  ℕ, ◌≡◌, refl, ap, ◌⊎◌, inl, inr, Bool, true, false, ◌&&◌, List, [], ◌∷◌, ◌++◌, ◌==◌, arith,
  Bool-cases, is_nil, any,
}
use rust_dns_backend.Text.{
  Text, Unicode, contains, trim, trim_start_by, trim_end_by, trim_end, is_whitespace,
}
use rust_dns_backend.Text.Split.{split_by}

pub split_by-cons :
    (p : ℕ → Bool) (s : Text) → (q : Text) × (qs : List Text) × (split_by p s ≡ q ∷ qs)
unfolding split_by
split_by-cons p [] = ([], [], refl)
split_by-cons p (x ∷ s) = elim (Bool-cases (p x)) [
  | inl e ↦ ([], split_by p s, rw e)
  | inr e ↦ let (q, qs, k) = split_by-cons p s in (x ∷ q, qs, rw (e, k))
]

pub split_by-append :
    (p : ℕ → Bool) (s : Text) (x : ℕ) (t : Text)
    → p x ≡ true
    → split_by p (s ++ x ∷ t) ≡ split_by p s ++ split_by p t
unfolding split_by
split_by-append p [] x t h = rw h
split_by-append p (y ∷ s) x t h = elim (Bool-cases (p y)) [
  | inl e ↦ rw e (ap (λ (r : List Text). [] ∷ r) (split_by-append p s x t h))
  | inr e ↦ let (q, qs, k) = split_by-cons p s in rw (e, split_by-append p s x t h, k)
]

-- Where no character separates, the text is the one piece.
pub split_by_absent : (p : ℕ → Bool) (s : Text) → any p s ≡ false → split_by p s ≡ s ∷ []
unfolding split_by any
split_by_absent p [] h = refl
split_by_absent p (x ∷ s) h =
    let e : p x ≡ false = ground arith in
    let rest : any p s ≡ false = ground arith in rw (e, split_by_absent p s rest)

-- The end of a text is trimmed, or it is clean.
pub trim_end_by_cases :
    (p : ℕ → Bool) (s : Text)
    → (trim_end_by p s ≡ s) ⊎ ((e : Text) × (c : ℕ) × (s ≡ e ++ c ∷ []) × (p c ≡ true))
unfolding trim_end_by
trim_end_by_cases p [] = inl refl
trim_end_by_cases p (x ∷ s) = elim (trim_end_by_cases p s) [
  | inr (e, c, q, h) ↦ inr (x ∷ e, c, ap (λ (r : Text). x ∷ r) q, h)
  | inl k ↦ elim (Bool-cases (is_nil s && p x)) [ inr f ↦ inl (rw (k, f)) | inl f ↦ last s x f ]
]
  where
    last :
        (s : Text) (x : ℕ)
        → (is_nil s && p x) ≡ true
        → (trim_end_by p (x ∷ s) ≡ x ∷ s)
          ⊎ ((e : Text) × (c : ℕ) × (x ∷ s ≡ e ++ c ∷ []) × (p c ≡ true))
    last [] x f = inr ([], x, refl, f)
    last (y ∷ s) x f = cc

pub trim_end_by_last :
    (p : ℕ → Bool) (s : Text) (c : ℕ) → p c ≡ false → trim_end_by p (s ++ c ∷ []) ≡ s ++ c ∷ []
unfolding trim_end_by
trim_end_by_last p [] c h = rw h
trim_end_by_last p (x ∷ []) c h = rw h
trim_end_by_last p (x ∷ y ∷ s) c h = rw (trim_end_by_last p (y ∷ s) c h)

-- A text without the character is not trimmed.
pub trim_end_absent : (c : ℕ) (s : Text) → contains c s ≡ false → trim_end c s ≡ s
unfolding contains trim_end trim_end_by any
trim_end_absent c [] h = refl
trim_end_absent c (x ∷ s) h =
    let e : (x == c) ≡ false = ground arith in
    let rest : any (λ (y : ℕ). y == c) s ≡ false = ground arith in
    rw (trim_end_absent c s rest) (ground arith)

module _ ⦃u : Unicode⦄ where
  -- A text between two characters that are no white space is not trimmed.
  pub trim_framed :
      (a : ℕ) (s : Text) (b : ℕ)
      → is_whitespace a ≡ false
      → is_whitespace b ≡ false
      → trim (a ∷ s ++ b ∷ []) ≡ a ∷ s ++ b ∷ []
  unfolding trim trim_start_by
  trim_framed a s b h k = rw h (trim_end_by_last is_whitespace (a ∷ s) b k)
