-- ===== src/LogQuery/Relative.antt =====
-- src/api/handlers/query_log_advanced.rs, `parse_relative_time`: ranges such as "-24h", with the
-- arithmetic of `i64`.
use rust_dns_backend.Base.{
  ℕ, zero, suc, ℤ, pos, negsuc, ◌+◌, ◌-◌, ◌*◌, ◌%◌, ◌^◌, Bool, not, ◌&&◌, ◌||◌, Option, none, some,
  [], ◌∷◌, ◌++◌, ltb, leb, ◌==◌, if◌then◌else◌, is_nil,
}
use rust_dns_backend.Text.{Text, codes}
use rust_dns_backend.Net.{digit_run, digits_value}
use rust_dns_backend.Error.{AppResult, ok, validation, internal, ok_or, ◌>>=◌}

-- The bits of an `i64`, and the number that bits stand for.
abbrev pub to_bits : ℤ → ℕ
to_bits (pos n) = n % 2 ^ 64
to_bits (negsuc n) = 2 ^ 64 - 1 - n % 2 ^ 64

abbrev pub of_bits : ℕ → ℤ
of_bits b = if ltb b (2 ^ 63) then pos b else negsuc (2 ^ 64 - 1 - b)

-- A product that wraps, by a factor that is not negative.
unfoldable pub mul_i64 : ℤ → ℕ → ℤ
mul_i64 a k = of_bits (to_bits a * k % 2 ^ 64)

-- `i64::abs`, which wraps at the least number.
unfoldable pub abs_i64 : ℤ → ℤ
abs_i64 (pos n) = pos n
abs_i64 (negsuc n) = of_bits ((n + 1) % 2 ^ 64)

-- Digits below a bound, and nothing else.
unfoldable pub digits_below : ℕ → Text → Option ℕ
unfolding digit_run digits_value
digits_below bound s =
    let (ds, rest) = digit_run 10 s in
    let value = digits_value 10 0 ds in
    if is_nil ds || not (is_nil rest) then none else if ltb value bound then some value else none

abbrev minus : ℕ → ℤ
minus zero = pos zero
minus (suc n) = negsuc n

-- `str::parse::<i64>`
unfoldable pub parse_i64 : Text → Option ℤ
unfolding digits_below
parse_i64 [] = none
parse_i64 (c ∷ s) =
    let negative : Option ℤ = elim (digits_below (2 ^ 63 + 1) s) [
      | none ↦ none
      | some n ↦ some (minus n)
    ] in
    let positive : Option ℤ = elim (digits_below (2 ^ 63) s) [
      | none ↦ none
      | some n ↦ some (pos n)
    ] in
    let unsigned : Option ℤ = elim (digits_below (2 ^ 63) (c ∷ s)) [
      | none ↦ none
      | some n ↦ some (pos n)
    ] in
    if c == b'-' then negative else if c == b'+' then positive else unsigned

-- `take_while` and `last`.
unfoldable pub take_while : (ℕ → Bool) → Text → Text
take_while p [] = []
take_while p (c ∷ s) = let rest = take_while p s in if p c then c ∷ rest else []

unfoldable pub last_char : Text → Option ℕ
last_char [] = none
last_char (c ∷ []) = some c
last_char (c ∷ d ∷ s) = last_char (d ∷ s)

-- The crate `chrono`: the present, and the instants so many hours, days or weeks ago, in the form
-- of RFC 3339. `none` stands for the panic of a duration that is out of range.
pub record Chrono : Type 0 where
  pub now : Text
  pub hours_ago : ℤ → Option Text
  pub days_ago : ℤ → Option Text
  pub weeks_ago : ℤ → Option Text

module _ ⦃chrono : Chrono⦄ where
  -- The start of the range, or nothing for a unit that is not known.
  unfoldable pub start_of : ℕ → ℤ → Option (Option Text)
  unfolding abs_i64 mul_i64
  start_of unit num =
      if unit == b'h'
      then some (chrono.hours_ago (abs_i64 num))
      else if unit == b'd'
      then some (chrono.days_ago (abs_i64 num))
      else if unit == b'w'
      then some (chrono.weeks_ago (abs_i64 num))
      else if unit == b'M'
      then some (chrono.days_ago (mul_i64 (abs_i64 num) 30))
      else none

  -- A panic ends the request as an internal error.
  unfoldable pub parse_relative_time : Text → AppResult (Text × Text)
  unfolding parse_i64 take_while last_char start_of
  parse_relative_time duration = do
    num ←
        ok_or (validation (codes "Invalid relative time format: " ++ duration))
          (parse_i64 (take_while (λ c. leb b'0' c && leb c b'9' || c == b'-') duration))
    unit ← ok_or (validation (codes "Missing time unit")) (last_char duration)
    start ← ok_or (validation (codes "Unsupported time unit: " ++ unit ∷ [])) (start_of unit num)
    from ← ok_or (internal (codes "panic")) start
    ok (from, chrono.now)
