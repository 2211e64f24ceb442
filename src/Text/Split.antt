-- ===== src/Text/Split.antt =====
-- `split`, `split_whitespace` and `join`.
use rust_dns_backend.Base.{ℕ, Bool, not, List, [], ◌∷◌, ◌++◌, ◌==◌, if◌then◌else◌, is_nil, keep_if}
use rust_dns_backend.Text.{Text, Unicode, is_whitespace}

-- `c` in front of the first piece.
abbrev pub onto_first : ℕ → List Text → List Text
onto_first c [] = (c ∷ []) ∷ []
onto_first c (p ∷ ps) = (c ∷ p) ∷ ps

-- `split` with a test of a character: never empty.
unfoldable pub split_by : (ℕ → Bool) → Text → List Text
split_by p [] = [] ∷ []
split_by p (x ∷ s) = let rest = split_by p s in if p x then [] ∷ rest else onto_first x rest

unfoldable pub split : ℕ → Text → List Text
unfolding split_by
split c s = split_by (λ x. x == c) s

module _ ⦃u : Unicode⦄ where
  unfoldable pub split_whitespace : Text → List Text
  unfolding split_by keep_if is_whitespace
  split_whitespace s = keep_if (λ w. not (is_nil w)) (split_by is_whitespace s)

-- `join` with a separator.
unfoldable pub join : Text → List Text → Text
join sep [] = []
join sep (p ∷ []) = p
join sep (p ∷ q ∷ ps) = p ++ (sep ++ join sep (q ∷ ps))

-- `str::lines`: cut at each line feed, with a carriage return in front of it, and without an empty
-- last line.
unfoldable pub strip_return : Text → Text
strip_return [] = []
strip_return (c ∷ []) = if c == 13 then [] else c ∷ []
strip_return (c ∷ d ∷ s) = c ∷ strip_return (d ∷ s)

unfoldable pub lines_of : List Text → List Text
lines_of [] = []
lines_of (p ∷ []) = if is_nil p then [] else p ∷ []
lines_of (p ∷ q ∷ ps) = strip_return p ∷ lines_of (q ∷ ps)

unfoldable pub lines : Text → List Text
unfolding split lines_of
lines s = lines_of (split 10 s)
