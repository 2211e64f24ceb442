-- ===== src/Error.antt =====
-- src/error.rs: `AppError`, its HTTP status, and `AppResult` with the `?` operator.
use rust_dns_backend.Base.{ℕ, ◌≡◌, refl, ◌⊎◌, inl, inr, Option, none, some}
use rust_dns_backend.Text.{Text}

pub data AppError : Type 0 where
  database : Text → AppError
  auth_failed : AppError
  unauthorized : Text → AppError
  not_found : Text → AppError
  conflict : Text → AppError
  validation : Text → AppError
  internal : Text → AppError
  json_error : Text → AppError
  anyhow : Text → AppError
  too_many_requests : AppError

-- The status code of `into_response`.
unfoldable pub status_code : AppError → ℕ
status_code auth_failed = 401
status_code (unauthorized m) = 403
status_code (not_found m) = 404
status_code (conflict m) = 409
status_code (validation m) = 400
status_code too_many_requests = 429
status_code _ = 500

pub data AppResult {ℓ} (A : Type ℓ) : Type ℓ where
  err : AppError → AppResult A
  ok : A → AppResult A

-- `ok_or(e)`
abbrev pub ok_or {ℓ} : {A : Type ℓ} → AppError → Option A → AppResult A
ok_or e none = err e
ok_or e (some a) = ok a

-- The operator `?`, with the rest of the function behind it.
abbrev pub ◌>>=◌ {ℓ κ} :
    {A : Type ℓ} {B : Type κ} (r : AppResult A) (rest : A → AppResult B) → AppResult B
err e >>= rest = err e
ok a >>= rest = rest a

infixl 5 ◌>>=◌
-- The same for a check, whose value is dropped.
abbrev pub ◌>>◌ {κ} : {B : Type κ} (check : AppResult (Unit {0})) (rest : AppResult B) → AppResult B
check >> rest = check >>= (λ done. rest)

infixl 5 ◌>>◌
pub >>=-eq-ok {ℓ κ} :
    {A : Type ℓ} {B : Type κ} (m : AppResult A) (f : A → AppResult B) {b : B}
    → (m >>= f) ≡ ok b
    → (a : A) × (m ≡ ok a) × (f a ≡ ok b)
>>=-eq-ok (err e) f h = cc
>>=-eq-ok (ok a) f h = (a, refl, h)

pub ok_inj {ℓ} : {A : Type ℓ} {a b : A} → ok a ≡ ok b → a ≡ b
ok_inj h = cc

pub AppResult-cases {ℓ} :
    {A : Type ℓ} (m : AppResult A) → ((e : AppError) × (m ≡ err e)) ⊎ ((a : A) × (m ≡ ok a))
AppResult-cases (err e) = inl (e, refl)
AppResult-cases (ok a) = inr (a, refl)
