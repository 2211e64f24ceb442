-- ===== src/Text.antt =====
-- Rust's `str` and `char` operations that the program uses, over texts as lists of code points.
-- On ASCII every operation computes. What Unicode adds above ASCII is the instance `Unicode`.
pub mod Split
pub mod Laws
pub mod SplitLaws
use rust_dns_backend.Base.{
  zero, suc, ◌/◌, ◌%◌, ℕ, ◌+◌, ◌≡◌, ◌<◌, Bool, true, false, not, ◌&&◌, ◌||◌, Option, none, some,
  List, [], ◌∷◌, ◌++◌, map, ltb, leb, ◌==◌, if◌then◌else◌, is_nil, any, all, keep_if, suc, ◌/◌, ◌%◌,
}
use Prim.Native.Char.{code}
use Prim.Native.String.{String}

abbrev pub Text : Type 0
Text = List ℕ

-- The code points of a literal.
abbrev pub codes : String → Text
codes String.[] = []
codes (String.◌∷◌ c s) = code c ∷ codes s

-- The tables of the standard library for code points from 128 on, and `to_lowercase` of a text
-- that is not all ASCII (whose result may depend on the neighbours of a letter).
pub record Unicode : Type 0 where
  pub alphanumeric : ℕ → Bool
  pub whitespace : ℕ → Bool
  pub lowercase : Text → Text

abbrev within : ℕ → ℕ → ℕ → Bool
within lo hi c = leb lo c && leb c hi

unfoldable pub is_ascii : ℕ → Bool
is_ascii c = ltb c 128

unfoldable pub to_ascii_lowercase : ℕ → ℕ
to_ascii_lowercase c = if within b'A' b'Z' c then c + 32 else c

-- The UTF-8 length, `str::len`.
unfoldable pub char_len : ℕ → ℕ
char_len c = if ltb c 128 then 1 else if ltb c 2048 then 2 else if ltb c 65536 then 3 else 4

unfoldable pub len : Text → ℕ
unfolding char_len
len [] = 0
len (c ∷ s) = char_len c + len s

module _ ⦃u : Unicode⦄ where
  unfoldable pub is_alphanumeric : ℕ → Bool
  is_alphanumeric c =
      if ltb c 128
      then within b'a' b'z' c || within b'A' b'Z' c || within b'0' b'9' c
      else u.alphanumeric c

  unfoldable pub is_whitespace : ℕ → Bool
  is_whitespace c = if ltb c 128 then within 9 13 c || c == 32 else u.whitespace c

  unfoldable pub to_lowercase : Text → Text
  unfolding to_ascii_lowercase is_ascii all
  to_lowercase s = if all is_ascii s then map to_ascii_lowercase s else u.lowercase s

unfoldable pub text_eq : Text → Text → Bool
text_eq [] [] = true
text_eq (x ∷ xs) (y ∷ ys) = x == y && text_eq xs ys
text_eq _ _ = false

-- `strip_prefix` and `starts_with` with a text.
unfoldable pub strip_prefix : Text → Text → Option Text
strip_prefix [] s = some s
strip_prefix (p ∷ ps) [] = none
strip_prefix (p ∷ ps) (c ∷ s) = let rest = strip_prefix ps s in if p == c then rest else none

unfoldable pub starts_with : Text → Text → Bool
unfolding strip_prefix
starts_with p s = elim (strip_prefix p s) [ none ↦ false | some _ ↦ true ]

unfoldable pub ends_with : Text → Text → Bool
unfolding text_eq
ends_with p [] = text_eq p []
ends_with p (c ∷ s) = text_eq p (c ∷ s) || ends_with p s

-- `contains` with a character.
unfoldable pub contains : ℕ → Text → Bool
unfolding any
contains c s = any (λ x. x == c) s

-- `trim_start_matches` and `trim_end_matches` with a test of a character.
unfoldable pub trim_start_by : (ℕ → Bool) → Text → Text
trim_start_by p [] = []
trim_start_by p (c ∷ s) = let rest = trim_start_by p s in if p c then rest else c ∷ s

unfoldable pub trim_end_by : (ℕ → Bool) → Text → Text
trim_end_by p [] = []
trim_end_by p (c ∷ s) = let rest = trim_end_by p s in if is_nil rest && p c then [] else c ∷ rest

unfoldable pub trim_end : ℕ → Text → Text
unfolding trim_end_by
trim_end c s = trim_end_by (λ x. x == c) s

module _ ⦃u : Unicode⦄ where
  unfoldable pub trim : Text → Text
  unfolding trim_start_by trim_end_by is_whitespace
  trim s = trim_end_by is_whitespace (trim_start_by is_whitespace s)

-- `str::find(c)` followed by the slice behind the match, as the loops over parent domains use it.
unfoldable pub after : ℕ → Text → Option Text
after c [] = none
after c (x ∷ s) = let rest = after c s in if x == c then some s else rest

-- A number in decimal, as `{}` prints it; the fuel is above the number.
unfoldable pub decimal_digits : ℕ → ℕ → Text
decimal_digits zero n = []
decimal_digits (suc fuel) n =
    let front = decimal_digits fuel (n / 10) in
    if ltb n 10 then (b'0' + n) ∷ [] else front ++ ((b'0' + n % 10) ∷ [])

unfoldable pub decimal : ℕ → Text
unfolding decimal_digits
decimal n = decimal_digits (suc n) n
