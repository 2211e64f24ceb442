-- ===== src/Tests/Logins.antt =====
-- src/api/handlers/auth.rs, src/auth/jwt.rs and the extractors at fixed inputs.
use rust_dns_backend.Base.{
  ℕ, ◌+◌, ◌≤◌, ◌≡◌, refl, sym, ◌∙◌, true, false, ◌&&◌, Bool, none, some, List, [], ◌∷◌, ◌++◌, ◌*◌,
  arith, leb, ◌==◌, if◌then◌else◌, Bool-cases, inl, inr, min,
}
use rust_dns_backend.Text.{Text, codes, text_eq}
use rust_dns_backend.Text.Laws.{text_eq→≡}
use rust_dns_backend.Map.{map_get, map_insert}
use rust_dns_backend.Error.{ok, err, auth_failed, validation}
use rust_dns_backend.Auth.{
  Claims, JwtCrate, Argon2, AuthState, UserRow, LoginRequest, LoginResponse, LoginInput, login,
  login_response, logout, auth_user, checked_user, generate, new_claims, bearer, change_password,
  new_hash, max_expiry_hours,
}
use rust_dns_backend.Auth.Limiter.{
  max_login_failures, is_limited, reset_attempts, record_login_failure,
}
use rust_dns_backend.Auth.Lockout.{
  IsWrong, IsWithin, run_logins, outcomes, run_logins-locked, login-after_window,
}
use rust_dns_backend.Auth.Race.{World, Reach, here, next, begin, fail, start_world, Reach-wrong_le}
use rust_dns_backend.Auth.Revoked.{ReadLaw, Request, log_in, log_out, serve_all, auth_user-logout}
use rust_dns_backend.Auth.Tokens.{ExpiryLaw, login-auth_user}

abbrev alice_claims : Claims
alice_claims = record {
  sub = codes "1";
  username = codes "alice";
  role = codes "admin";
  exp = 605800;
  iat = 1000;
  jti = codes "j";
}

unfoldable claims_eq : Claims → Claims → Bool
unfolding text_eq
claims_eq c d =
    text_eq c.sub d.sub
    && text_eq c.username d.username
    && text_eq c.role d.role
    && c.exp == d.exp
    && c.iat == d.iat
    && text_eq c.jti d.jti

-- The one token stands for the one set of claims.
instance abbrev one_token : JwtCrate
one_token = record {
  encode = λ c secret. if claims_eq c alice_claims then some (codes "tok") else none;
  decode = λ now token secret.
      if text_eq token (codes "tok") && leb now (alice_claims.exp + 60)
      then some alice_claims
      else none;
}

-- A hash is the password itself.
instance abbrev plain_hash : Argon2
plain_hash = record { verify_password = λ p h. text_eq p h; hash_password = λ salt p. some p }

claims_eq→≡ : (c d : Claims) → claims_eq c d ≡ true → c ≡ d
unfolding claims_eq
claims_eq→≡ c d h =
    let sub : c.sub ≡ d.sub = text_eq→≡ c.sub d.sub (ground arith) in
    let name : c.username ≡ d.username = text_eq→≡ c.username d.username (ground arith) in
    let role : c.role ≡ d.role = text_eq→≡ c.role d.role (ground arith) in
    let jti : c.jti ≡ d.jti = text_eq→≡ c.jti d.jti (ground arith) in
    let exp : c.exp ≡ d.exp = ground arith in let iat : c.iat ≡ d.iat = ground arith in cc

read_alice :
    (now : ℕ) (token : Text) (c : Claims)
    → one_token.decode now token [] ≡ some c
    → c ≡ alice_claims
read_alice now token c h = ground arith

one_token_read : ReadLaw one_token
one_token_read = record {
  same_claims =
      λ now later token secret c d h k. read_alice now token c h ∙ sym (read_alice later token d k);
}

alive :
    (now : ℕ) (token : Text) (c d : Claims)
    → c ≡ alice_claims
    → one_token.decode now token [] ≡ some d
    → now ≤ c.exp + 60
alive now token c d same h = rw same (ground arith)

one_token_expiry : ExpiryLaw one_token
one_token_expiry = record {
  made_of = λ now token secret c d h k. elim (Bool-cases (claims_eq c alice_claims)) [
    | inl e ↦ (
      read_alice now token d k ∙ sym (claims_eq→≡ c alice_claims e),
      alive now token c d (claims_eq→≡ c alice_claims e) k,
    )
    | inr e ↦ absurd (ground arith)
  ];
}

abbrev server : AuthState
server = record {
  login_attempts = [];
  token_blacklist = [];
  jwt_secret = codes "secret";
  jwt_expiry_hours = 1000;
  allow_default_password = false;
}

abbrev ip : Text
ip = codes "192.0.2.7"

abbrev alice : UserRow
alice = record {
  user_id = codes "1";
  password_hash = codes "hunter22";
  user_role = codes "admin";
  is_active = true;
}

abbrev with_password : Text → LoginRequest
with_password p = record { login_username = codes "alice"; password = p }

abbrev at_second : ℕ → LoginInput
at_second n = record {
  checked_at = n * 1000000000;
  finished_at = n * 1000000000;
  seconds = n;
  uuid = codes "j";
  user_row = ok (some alice);
}

abbrev bad_login : ℕ → LoginRequest × LoginInput
bad_login n = (with_password (codes "guess"), at_second n)

bad_login-IsWrong : (n : ℕ) → IsWrong (bad_login n)
unfolding checked_user text_eq
bad_login-IsWrong n = record { row = some alice; row_read = refl; no_user = refl }

soon : (n : ℕ) → n ≤ 800 → (attempt : LoginRequest) → IsWithin 1000000000 (attempt, at_second n)
soon n h attempt = record { check_within = omega arith; end_within = omega arith }

abbrev four_more : List (LoginRequest × LoginInput)
four_more = bad_login 2 ∷ bad_login 3 ∷ bad_login 4 ∷ bad_login 5 ∷ []

run_logins-locked_example :
    (run_logins server ip
      (bad_login 1 ∷ four_more ++ (with_password (codes "hunter22"), at_second 600) ∷ [])).1
    ≡ outcomes max_login_failures (max_login_failures + 1)
unfolding map_get
run_logins-locked_example =
    run_logins-locked server ip (bad_login 1) four_more
      ((with_password (codes "hunter22"), at_second 600) ∷ []) refl refl (bad_login-IsWrong 1)
      (bad_login-IsWrong 2, (bad_login-IsWrong 3, (bad_login-IsWrong 4, (bad_login-IsWrong 5, tt))))
      (
        soon 2 (omega arith) (bad_login 2).0,
        (
          soon 3 (omega arith) (bad_login 3).0,
          (soon 4 (omega arith) (bad_login 4).0, (soon 5 (omega arith) (bad_login 5).0, tt)),
        ),
      )
      (soon 600 (omega arith) (with_password (codes "hunter22")), tt)

abbrev locked : AuthState
locked = record server { login_attempts = (ip, (5, 1000000000)) ∷ [] }

right_password : text_eq (codes "hunter22") alice.password_hash ≡ true
unfolding text_eq
right_password = refl

signed_run :
    generate alice.user_id
      (codes "alice")
      alice.user_role
      locked.jwt_secret
      (min locked.jwt_expiry_hours max_expiry_hours)
      1000
      (codes "j")
    ≡ some (codes "tok")
unfolding generate new_claims claims_eq text_eq
signed_run = refl

is_locked : map_get ip locked.login_attempts ≡ some (5, 1000000000)
unfolding map_get text_eq
is_locked = refl

login-after_window_example :
    (response : LoginResponse) × ((login locked ip
        (with_password (codes "hunter22"))
        (at_second 1000)).1
      ≡ ok response)
    × (response.token ≡ codes "tok")
    × (response.login_role ≡ alice.user_role)
    × (map_get ip
          (login locked ip (with_password (codes "hunter22")) (at_second 1000)).0.login_attempts
        ≡ none)
login-after_window_example =
    login-after_window locked ip (with_password (codes "hunter22")) (at_second 1000) alice 5
      1000000000 is_locked (omega arith) refl refl right_password signed_run

abbrev answer : LoginResponse
answer = record {
  token = codes "tok";
  expires_in = 3600000;
  login_role = codes "admin";
  requires_password_change = false;
}

login_run : (login server ip (with_password (codes "hunter22")) (at_second 1000)).1 ≡ ok answer
unfolding login login_response generate new_claims claims_eq text_eq
login_run = refl

accepted_run : auth_user server 1001 (some (codes "Bearer tok")) ≡ ok alice_claims
unfolding auth_user
accepted_run = refl

login-auth_user_example : (alice_claims.role ≡ answer.login_role) × (1001 ≤ 1000 + 604860)
login-auth_user_example =
    login-auth_user one_token_expiry server server ip (with_password (codes "hunter22"))
      (at_second 1000) answer 1001 alice_claims (omega arith) refl login_run accepted_run

bearer_run : bearer (some (codes "Bearer tok")) ≡ some (codes "tok")
unfolding bearer
bearer_run = refl

decode_run : one_token.decode 1001 (codes "tok") server.jwt_secret ≡ some alice_claims
unfolding text_eq
decode_run = refl

abbrev later_requests : List Request
later_requests =
    log_in ip (with_password (codes "hunter22")) (at_second 1002) ∷ log_out 1003 none ∷ []

auth_user-logout_example :
    auth_user
      (serve_all (logout server 1001 (some (codes "Bearer tok"))) later_requests)
      1004
      (some (codes "Bearer tok"))
    ≡ err auth_failed
auth_user-logout_example =
    auth_user-logout one_token_read server 1001 1004 (some (codes "Bearer tok")) (codes "tok")
      alice_claims later_requests bearer_run decode_run

-- Two logins at once, both wrong.
abbrev both_wrong : World
both_wrong = record { attempts = (ip, (2, 10)) ∷ []; in_flight = 0; wrong = 2 }

abbrev in_hand : ℕ → World
in_hand n = record { attempts = []; in_flight = n; wrong = 0 }

abbrev one_failed : World
one_failed = record { attempts = (ip, (1, 10)) ∷ []; in_flight = 1; wrong = 1 }

two_at_once : Reach ip 2 start_world both_wrong
unfolding is_limited reset_attempts record_login_failure map_get map_insert text_eq
two_at_once =
    next
      (next
        (next (next here (begin (in_hand 0) 0 (omega arith) (omega arith) refl))
          (begin (in_hand 1) 1 (omega arith) (omega arith) refl))
        (fail (in_hand 2) 10 1 (omega arith) refl))
      (fail one_failed 20 0 (omega arith) refl)

Reach-wrong_le_example : both_wrong.wrong ≤ 4 + 2
Reach-wrong_le_example = Reach-wrong_le ip 2 (omega arith) two_at_once

short_password_run :
    change_password
      (record { current_password = codes "hunter22"; new_password = codes "short" })
      (ok (some (codes "1", codes "hunter22")))
      (codes "salt")
    ≡ err (validation (codes "New password must be at least 8 characters"))
unfolding change_password
short_password_run = refl

changed_run :
    change_password
      (record { current_password = codes "hunter22"; new_password = codes "hunter33" })
      (ok (some (codes "1", codes "hunter22")))
      (codes "salt")
    ≡ ok (codes "1", codes "hunter33")
unfolding change_password new_hash text_eq
changed_run = refl
