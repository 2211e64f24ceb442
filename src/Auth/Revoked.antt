-- ===== src/Auth/Revoked.antt =====
-- src/api/handlers/auth.rs, `logout`, and src/api/middleware/auth.rs: tokens after a logout.
use rust_dns_backend.Base.{
  ℕ, ◌≡◌, refl, ◌∙◌, true, Option, none, some, List, [], ◌∷◌, arith, In, here, there, In-any,
  Option-cases, inl, inr, Bool-cases, ◌≢◌,
}
use rust_dns_backend.Text.{Text, text_eq}
use rust_dns_backend.Text.Laws.{text_eq_refl}
use rust_dns_backend.Auth.Limiter.{is_limited, reset_attempts}
use rust_dns_backend.Auth.Lockout.{login-limited, login-passed}
use rust_dns_backend.Error.{err, auth_failed}
use rust_dns_backend.Auth.{
  JwtCrate, Argon2, AuthState, Claims, LoginRequest, LoginInput, bearer, is_blacklisted, auth_user,
  logout, login, finish_login, with_attempts,
}

-- What `jsonwebtoken` documents: the claims are those that stand in the token, at whatever time it
-- is read.
pub record ReadLaw (jwt : JwtCrate) : Type 0 where
  pub same_claims :
      (now later : ℕ) (token secret : Text) (c d : Claims)
      → jwt.decode now token secret ≡ some c
      → jwt.decode later token secret ≡ some d
      → c ≡ d

-- The requests that change what the extractors read.
pub data Request : Type 0 where
  log_in : Text → LoginRequest → LoginInput → Request
  log_out : ℕ → Option Text → Request

module _ ⦃jwt : JwtCrate⦄ ⦃argon : Argon2⦄ where
  unfoldable pub serve : AuthState → Request → AuthState
  unfolding login logout
  serve s (log_in ip request input) = (login s ip request input).0
  serve s (log_out now header) = logout s now header

  unfoldable pub serve_all : AuthState → List Request → AuthState
  unfolding serve
  serve_all s [] = s
  serve_all s (r ∷ rs) = serve_all (serve s r) rs

  -- The secret stays, and the blacklist only grows.
  record Later (s t : AuthState) : Type 0 where
    secret : t.jwt_secret ≡ s.jwt_secret
    listed : (jti : Text) → In jti s.token_blacklist → In jti t.token_blacklist

  finish_login-Later :
      (s : AuthState) (ip : Text) (request : LoginRequest) (input : LoginInput)
      → ((finish_login s ip request input).0.jwt_secret ≡ s.jwt_secret)
        × ((finish_login s ip request input).0.token_blacklist ≡ s.token_blacklist)
  unfolding finish_login
  finish_login-Later s ip request input = ground arith

  login-Later :
      (s : AuthState) (ip : Text) (request : LoginRequest) (input : LoginInput)
      → ((login s ip request input).0.jwt_secret ≡ s.jwt_secret)
        × ((login s ip request input).0.token_blacklist ≡ s.token_blacklist)
  login-Later s ip request input =
      elim (Bool-cases (is_limited s.login_attempts ip input.checked_at)) [
        | inl e ↦ rw (login-limited s ip request input e) (refl, refl)
        | inr e ↦ rw (login-passed s ip request input e) (
            finish_login-Later
              (with_attempts s (reset_attempts s.login_attempts ip input.checked_at)) ip request
              input)
      ]

  logout-noop :
      (s : AuthState) (now : ℕ) (header : Option Text)
      → ((token : Text) (c : Claims)
          → bearer header ≡ some token
          → jwt.decode now token s.jwt_secret ≢ some c)
      → logout s now header ≡ s
  unfolding logout
  logout-noop s now header h = elim (Option-cases (bearer header)) [
    | inl e ↦ ground (arith, e)
    | inr (token, e) ↦ elim (Option-cases (jwt.decode now token s.jwt_secret)) [
      | inl k ↦ ground (arith, e, k)
      | inr (c, k) ↦ absurd (h token c e k)
    ]
  ]

  logout-listing :
      (s : AuthState) (now : ℕ) (header : Option Text) (token : Text) (c : Claims)
      → bearer header ≡ some token
      → jwt.decode now token s.jwt_secret ≡ some c
      → logout s now header ≡ record s { token_blacklist = c.jti ∷ s.token_blacklist }
  unfolding logout
  logout-listing s now header token c h k = ground (arith, h, k)

  logout-Later : (s : AuthState) (now : ℕ) (header : Option Text) → Later s (logout s now header)
  logout-Later s now header = elim (Option-cases (bearer header)) [
    | inl e ↦
        rw (logout-noop s now header (λ token c h k. cc))
          (record { secret = refl; listed = λ jti m. m })
    | inr (token, e) ↦ elim (Option-cases (jwt.decode now token s.jwt_secret)) [
      | inl k ↦
          rw (logout-noop s now header (λ t c h d. wrong token t c e h k d))
            (record { secret = refl; listed = λ jti m. m })
      | inr (c, k) ↦
          rw (logout-listing s now header token c e k)
            (record { secret = refl; listed = λ jti m. there m })
    ]
  ]
    where
      wrong :
          (token t : Text) (c : Claims)
          → bearer header ≡ some token
          → bearer header ≡ some t
          → jwt.decode now token s.jwt_secret ≡ none
          → jwt.decode now t s.jwt_secret ≡ some c
          → ⊥
      wrong token t c e h k d = cc

  serve-Later : (s : AuthState) (r : Request) → Later s (serve s r)
  unfolding serve
  serve-Later s (log_in ip request input) =
      let (same, list) = login-Later s ip request input in
      record { secret = same; listed = λ jti m. rw list m }
  serve-Later s (log_out now header) = logout-Later s now header

  serve_all-Later : (s : AuthState) (rs : List Request) → Later s (serve_all s rs)
  unfolding serve_all
  serve_all-Later s [] = record { secret = refl; listed = λ jti m. m }
  serve_all-Later s (r ∷ rs) =
      let one = serve-Later s r in
      let others = serve_all-Later (serve s r) rs in
      record {
        secret = others.secret ∙ one.secret;
        listed = λ jti m. others.listed jti (one.listed jti m);
      }

  logout-listed :
      (s : AuthState) (now : ℕ) (header : Option Text) (token : Text) (c : Claims)
      → bearer header ≡ some token
      → jwt.decode now token s.jwt_secret ≡ some c
      → In c.jti (logout s now header).token_blacklist
  logout-listed s now header token c h k = rw (logout-listing s now header token c h k) here

  auth_user-undecoded :
      (s : AuthState) (now : ℕ) (header : Option Text) (token : Text)
      → bearer header ≡ some token
      → jwt.decode now token s.jwt_secret ≡ none
      → auth_user s now header ≡ err auth_failed
  unfolding auth_user
  auth_user-undecoded s now header token h k = ground (arith, h, k)

  is_listed : (s : AuthState) (jti : Text) → In jti s.token_blacklist → is_blacklisted s jti ≡ true
  unfolding is_blacklisted
  is_listed s jti m = In-any (text_eq jti) s.token_blacklist m (text_eq_refl jti)

  auth_user-blacklisted :
      (s : AuthState) (now : ℕ) (header : Option Text) (token : Text) (c : Claims)
      → bearer header ≡ some token
      → jwt.decode now token s.jwt_secret ≡ some c
      → is_blacklisted s c.jti ≡ true
      → auth_user s now header ≡ err auth_failed
  unfolding auth_user
  auth_user-blacklisted s now header token c h k l = ground (arith, h, k, l)

  -- After a logout with a token that was still good, nobody gets in with that token again, whatever
  -- logins and logouts come after it and however late. The claims are taken to be read off the token.
  pub auth_user-logout :
      (law : ReadLaw jwt) (s : AuthState) (now later : ℕ) (header : Option Text) (token : Text)
      (c : Claims) (requests : List Request)
      → bearer header ≡ some token
      → jwt.decode now token s.jwt_secret ≡ some c
      → auth_user (serve_all (logout s now header) requests) later header ≡ err auth_failed
  auth_user-logout law s now later header token c requests h k =
      let t = serve_all (logout s now header) requests in
      let kept = serve_all-Later (logout s now header) requests in
      let once = logout-Later s now header in
      let secret : t.jwt_secret ≡ s.jwt_secret = kept.secret ∙ once.secret in
      let listed : In c.jti t.token_blacklist =
        kept.listed c.jti (logout-listed s now header token c h k) in
      elim (Option-cases (jwt.decode later token t.jwt_secret)) [
        | inl e ↦ auth_user-undecoded t later header token h e
        | inr (d, e) ↦
            let same : c ≡ d =
              law.same_claims now later token s.jwt_secret c d k (rw secret at e) in
            auth_user-blacklisted t later header token d h e
              (rw (← same) (is_listed t c.jti listed))
      ]
