-- ===== src/LogQuery/Numbered.antt =====
-- src/api/handlers/query_log_advanced.rs, `pg_numbered`: the loop against one pass over the text.
use rust_dns_backend.Base.{
  ℕ, zero, suc, ◌+◌, ◌/◌, ◌%◌, ◌<◌, ◌≤◌, ◌≡◌, refl, sym, ◌∙◌, ap, inl, inr, false, none, some, [],
  ◌∷◌, ◌++◌, ltb, ◌==◌, if◌then◌else◌, arith, length, any, Bool-cases, append_nil, append_assoc,
}
use rust_dns_backend.Text.{Text, contains, decimal, decimal_digits}
use rust_dns_backend.LogQuery.Queries.{replace_mark, dollar, pg_loop, pg_numbered}

-- How often a character stands in a text.
unfoldable pub count : ℕ → Text → ℕ
count c [] = 0
count c (x ∷ s) = let rest = count c s in if x == c then suc rest else rest

-- One pass: the marks become `$1`, `$2` and so on, in their order.
unfoldable pub number_marks : ℕ → Text → Text
unfolding dollar
number_marks n [] = []
number_marks n (c ∷ s) =
    let marked = dollar (n + 1) ++ number_marks (n + 1) s in
    let other = c ∷ number_marks n s in if c == b'?' then marked else other

pub contains-append_false :
    (c : ℕ) (s t : Text) → contains c s ≡ false → contains c t ≡ false → contains c (s ++ t) ≡ false
unfolding contains any
contains-append_false c [] t h k = k
contains-append_false c (x ∷ s) t h k = ground (arith, contains-append_false c s t)

decimal_digits-no_mark : (fuel n : ℕ) → contains b'?' (decimal_digits fuel n) ≡ false
unfolding decimal_digits contains any
decimal_digits-no_mark zero n = refl
decimal_digits-no_mark (suc fuel) n = elim (Bool-cases (ltb n 10)) [
  | inl e ↦ rw e (ground arith)
  | inr e ↦ rw e (
      unfold contains any in
      contains-append_false b'?' (decimal_digits fuel (n / 10)) ((b'0' + n % 10) ∷ [])
        (decimal_digits-no_mark fuel (n / 10)) (ground arith))
]

dollar-no_mark : (n : ℕ) → contains b'?' (dollar n) ≡ false
unfolding dollar decimal contains any
dollar-no_mark n = decimal_digits-no_mark (suc n) n

replace_mark-none : (new p : Text) → contains b'?' p ≡ false → replace_mark new p ≡ none
unfolding replace_mark contains any
replace_mark-none new [] h = refl
replace_mark-none new (c ∷ p) h = ground (arith, replace_mark-none new p)

replace_mark-append :
    (new p s : Text)
    → contains b'?' p ≡ false
    → replace_mark new (p ++ b'?' ∷ s) ≡ some (p ++ (new ++ s))
unfolding replace_mark contains any
replace_mark-append new [] s h = refl
replace_mark-append new (c ∷ p) s h = ground (arith, replace_mark-append new p s)

pg_loop-none :
    (fuel n : ℕ) (s : Text) → replace_mark (dollar (n + 1)) s ≡ none → pg_loop (suc fuel) n s ≡ s
unfolding pg_loop
pg_loop-none fuel n s h = ground arith

pg_loop-some :
    (fuel n : ℕ) (s : Text) {t : Text}
    → replace_mark (dollar (n + 1)) s ≡ some t
    → pg_loop (suc fuel) n s ≡ pg_loop fuel (n + 1) t
unfolding pg_loop
pg_loop-some fuel n s h = ground arith

-- After some rounds the text in front has no mark left.
pg_loop_pass :
    (fuel n : ℕ) (p s : Text)
    → contains b'?' p ≡ false
    → count b'?' s < fuel
    → pg_loop fuel n (p ++ s) ≡ p ++ number_marks n s
unfolding number_marks count
pg_loop_pass zero n p s h k = absurd (omega arith)
pg_loop_pass (suc fuel) n p [] h k =
    rw (append_nil p) (pg_loop-none fuel n p (replace_mark-none (dollar (n + 1)) p h))
pg_loop_pass (suc fuel) n p (c ∷ s) h k = elim (Bool-cases (c == b'?')) [
  | inl e ↦
      let is_mark : c ≡ b'?' = ground arith in
      let found : replace_mark (dollar (n + 1)) (p ++ c ∷ s) ≡ some (p ++ (dollar (n + 1) ++ s)) =
        rw is_mark (replace_mark-append (dollar (n + 1)) p s h) in
      let round =
        pg_loop_pass fuel (n + 1) (p ++ dollar (n + 1)) s
          (contains-append_false b'?' p (dollar (n + 1)) h (dollar-no_mark (n + 1)))
          (ground arith) in
      rw e (
        pg_loop-some fuel n (p ++ c ∷ s) found
        ∙ (ap (pg_loop fuel (n + 1)) (sym (append_assoc p (dollar (n + 1)) s))
            ∙ (round ∙ append_assoc p (dollar (n + 1)) (number_marks (n + 1) s))))
  | inr e ↦
      let clean : contains b'?' (c ∷ []) ≡ false = unfold contains any in ground arith in
      let step =
        pg_loop_pass (suc fuel) n (p ++ c ∷ []) s (contains-append_false b'?' p (c ∷ []) h clean)
          (ground arith) in
      rw e (
        ap (pg_loop (suc fuel) n) (sym (append_assoc p (c ∷ []) s))
        ∙ (step ∙ append_assoc p (c ∷ []) (number_marks n s)))
]

count-le-length : (c : ℕ) (s : Text) → count c s ≤ length s
unfolding count
count-le-length c [] = omega arith
count-le-length c (x ∷ s) = ground (arith, count-le-length c s)

-- The loop of `pg_numbered` ends, and gives what one pass gives: the marks become `$1`, `$2` and so
-- on, in their order, and nothing else changes.
pub pg_numbered_lem : (sql : Text) → pg_numbered sql ≡ number_marks 0 sql
unfolding pg_numbered contains any
pg_numbered_lem sql =
    pg_loop_pass (suc (length sql)) 0 [] sql refl (omega (arith, count-le-length b'?' sql))
