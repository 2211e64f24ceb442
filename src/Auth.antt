-- ===== src/Auth.antt =====
-- src/auth/jwt.rs, src/api/middleware/auth.rs, src/api/middleware/rbac.rs and src/api/handlers/auth.rs:
-- tokens, the extractors that check them, and login and logout on the state that they share.
pub mod Limiter
pub mod Lockout
pub mod Race
pub mod Revoked
pub mod Tokens
pub mod Tickets
pub mod Once
use rust_dns_backend.Base.{
  ℕ, ◌+◌, ◌-◌, ◌*◌, ◌%◌, ◌^◌, Bool, true, false, not, ◌||◌, ◌&&◌, Option, none, some, List, [], ◌∷◌,
  ltb, leb, if◌then◌else◌, min, any,
}
use rust_dns_backend.Text.{Text, codes, len, text_eq, strip_prefix}
use rust_dns_backend.Map.{Map, map_get, map_insert, map_remove}
use rust_dns_backend.Error.{
  AppResult, ok, err, auth_failed, unauthorized, validation, not_found, internal, too_many_requests,
  AppError, ok_or, ◌>>=◌, ◌>>◌,
}
use rust_dns_backend.Auth.Limiter.{Attempts, reset_attempts, is_limited, record_login_failure}

pub record Claims : Type 0 where
  pub sub : Text
  pub username : Text
  pub role : Text
  pub exp : ℕ
  pub iat : ℕ
  pub jti : Text

-- The crate `jsonwebtoken`: `encode` under a secret, and `decode`, which reads the clock (in
-- seconds) to check the expiry.
pub record JwtCrate : Type 0 where
  pub encode : Claims → Text → Option Text
  pub decode : ℕ → Text → Text → Option Claims

-- `argon2`, `Err` as `none`; the salt is an input of the hash.
pub record Argon2 : Type 0 where
  pub verify_password : Text → Text → Bool
  pub hash_password : Text → Text → Option Text

-- The part of `AppState` that logins use. The blacklist is the list of its keys.
pub record AuthState : Type 0 where
  pub login_attempts : Attempts
  pub token_blacklist : List Text
  pub jwt_secret : Text
  pub jwt_expiry_hours : ℕ
  pub allow_default_password : Bool

-- `id, password, role, is_active` of the table `users`.
pub record UserRow : Type 0 where
  pub user_id : Text
  pub password_hash : Text
  pub user_role : Text
  pub is_active : Bool

pub record LoginRequest : Type 0 where
  pub login_username : Text
  pub password : Text

pub record LoginResponse : Type 0 where
  pub token : Text
  pub expires_in : ℕ
  pub login_role : Text
  pub requires_password_change : Bool

-- The inputs of a login: the instants (in nanoseconds) of the limiter's check and of the end, the
-- seconds of `Utc`, the identifier made for the token, and the row that the query gives for the
-- name, or its failure.
pub record LoginInput : Type 0 where
  pub checked_at : ℕ
  pub finished_at : ℕ
  pub seconds : ℕ
  pub uuid : Text
  pub user_row : AppResult (Option UserRow)

abbrev pub max_expiry_hours : ℕ
max_expiry_hours = 168

module _ ⦃jwt : JwtCrate⦄ where
  -- `usize` arithmetic, which wraps.
  unfoldable pub new_claims : Text → Text → Text → ℕ → ℕ → Text → Claims
  new_claims user_id username role expiry_hours now uuid = record {
    sub = user_id;
    username = username;
    role = role;
    exp = (now + expiry_hours * 3600 % 2 ^ 64) % 2 ^ 64;
    iat = now;
    jti = uuid;
  }

  unfoldable pub generate : Text → Text → Text → Text → ℕ → ℕ → Text → Option Text
  unfolding new_claims
  generate user_id username role secret expiry_hours now uuid =
      jwt.encode (new_claims user_id username role expiry_hours now uuid) secret

  -- The bearer token of the header `authorization`, if that is text.
  unfoldable pub bearer : Option Text → Option Text
  unfolding strip_prefix
  bearer none = none
  bearer (some header) = strip_prefix (codes "Bearer ") header

  unfoldable pub is_blacklisted : AuthState → Text → Bool
  unfolding any text_eq
  is_blacklisted s jti = any (text_eq jti) s.token_blacklist

  -- The extractor `AuthUser`.
  unfoldable pub auth_user : AuthState → ℕ → Option Text → AppResult Claims
  unfolding bearer is_blacklisted
  auth_user s now header = do
    token ← ok_or auth_failed (bearer header)
    claims ← ok_or auth_failed (jwt.decode now token s.jwt_secret)
    if is_blacklisted s claims.jti then err auth_failed else ok claims

  unfoldable pub is_admin_role : Text → Bool
  unfolding text_eq
  is_admin_role role = text_eq role (codes "admin") || text_eq role (codes "super_admin")

  -- The extractor `AdminUser`.
  unfoldable pub admin_user : AuthState → ℕ → Option Text → AppResult Claims
  unfolding auth_user is_admin_role
  admin_user s now header = do
    claims ← auth_user s now header
    if is_admin_role claims.role
        then ok claims
        else err (unauthorized (codes "Admin or super_admin role required"))

  -- A token that verifies is blacklisted by its `jti`.
  unfoldable pub logout : AuthState → ℕ → Option Text → AuthState
  unfolding bearer
  logout s now header = elim (bearer header) [
    | none ↦ s
    | some token ↦ elim (jwt.decode now token s.jwt_secret) [
      | none ↦ s
      | some claims ↦ record s { token_blacklist = claims.jti ∷ s.token_blacklist }
    ]
  ]

abbrev pub with_attempts : AuthState → Attempts → AuthState
with_attempts s a = record s { login_attempts = a }

module _ ⦃jwt : JwtCrate⦄ ⦃argon : Argon2⦄ where
  -- The user whose password it is.
  unfoldable pub checked_user : LoginRequest → Option UserRow → Option UserRow
  checked_user request none = none
  checked_user request (some row) =
      if row.is_active && argon.verify_password request.password row.password_hash
      then some row
      else none

  unfoldable pub login_response :
      AuthState → LoginRequest → UserRow → LoginInput → AppResult LoginResponse
  unfolding generate text_eq
  login_response s request row input =
      let is_default = text_eq request.password (codes "admin") in
      ok_or (internal (codes "token")) (
        generate row.user_id request.login_username row.user_role s.jwt_secret
          (min s.jwt_expiry_hours max_expiry_hours) input.seconds input.uuid)
      >>= λ token. ok (record {
        token = token;
        expires_in = s.jwt_expiry_hours * 3600 % 2 ^ 64;
        login_role = row.user_role;
        requires_password_change = is_default && not s.allow_default_password;
      })

  -- The rest of a login, once the limiter has let it pass.
  unfoldable pub finish_login :
      AuthState → Text → LoginRequest → LoginInput → AuthState × AppResult LoginResponse
  unfolding checked_user login_response record_login_failure map_remove
  finish_login s ip request input = elim input.user_row [
    | err e ↦ (s, err e)
    | ok row ↦ elim (checked_user request row) [
      | none ↦ (
        with_attempts s (record_login_failure s.login_attempts ip input.finished_at),
        err auth_failed,
      )
      | some user ↦
          let s' = with_attempts s (map_remove ip s.login_attempts) in
          (s', login_response s' request user input)
    ]
  ]

  unfoldable pub login :
      AuthState → Text → LoginRequest → LoginInput → AuthState × AppResult LoginResponse
  unfolding reset_attempts is_limited finish_login
  login s ip request input =
      if is_limited s.login_attempts ip input.checked_at
      then (s, err too_many_requests)
      else finish_login (with_attempts s (reset_attempts s.login_attempts ip input.checked_at)) ip
          request input

pub record ChangePasswordRequest : Type 0 where
  pub current_password : Text
  pub new_password : Text

module _ ⦃argon : Argon2⦄ where
  -- The new hash, once the current password is right.
  unfoldable pub new_hash : ChangePasswordRequest → Text → Text × Text → AppResult (Text × Text)
  new_hash request salt user =
      let made =
        ok_or (internal (codes "Password hashing failed"))
          (argon.hash_password salt request.new_password) in
      if argon.verify_password request.current_password user.1
      then made >>= (λ hash. ok (user.0, hash))
      else err (validation (codes "Current password is incorrect"))

  -- What `change_password` writes: the user and the new hash. The row is the id and the hash that
  -- the query gives.
  unfoldable pub change_password :
      ChangePasswordRequest → AppResult (Option (Text × Text)) → Text → AppResult (Text × Text)
  unfolding len text_eq new_hash
  change_password request user_row salt =
      if ltb (len request.new_password) 8
      then err (validation (codes "New password must be at least 8 characters"))
      else if text_eq request.new_password (codes "admin")
      then err (validation (codes "New password cannot be the default password"))
      else user_row >>= λ row.
          ok_or (not_found (codes "User not found")) row >>= λ user. new_hash request salt user
