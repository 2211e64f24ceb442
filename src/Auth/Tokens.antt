-- ===== src/Auth/Tokens.antt =====
-- src/auth/jwt.rs, src/api/middleware/auth.rs and src/api/middleware/rbac.rs: who gets in, and for how
-- long.
use rust_dns_backend.Base.{
  ◌%◌, ◌^◌, ℕ, ◌+◌, ◌*◌, ◌≤◌, ◌<◌, ◌≡◌, ◌↔◌, refl, ap, sym, ◌∙◌, ◌⊎◌, inl, inr, true, false, Option,
  none, some, ◌++◌, arith, min, Option-cases, Bool-cases, or_inv, if◌then◌else◌,
}
use rust_dns_backend.Text.{Text, codes, text_eq, strip_prefix}
use rust_dns_backend.Text.Laws.{text_eq_iff}
use rust_dns_backend.Auth.Limiter.{is_limited, reset_attempts}
use rust_dns_backend.Auth.Lockout.{login-limited, login-passed}
use rust_dns_backend.Error.{AppResult-cases, unauthorized, AppResult, ok, err, >>=-eq-ok, ok_inj}
use rust_dns_backend.Auth.{
  JwtCrate, Argon2, AuthState, Claims, UserRow, LoginRequest, LoginInput, LoginResponse, bearer,
  is_blacklisted, auth_user, admin_user, is_admin_role, login, login_response, finish_login,
  generate, new_claims, checked_user, with_attempts, max_expiry_hours,
}

module _ ⦃jwt : JwtCrate⦄ where
  -- The header carries a token that verifies to these claims and is not revoked.
  pub record Identifies (s : AuthState) (now : ℕ) (header : Option Text) (c : Claims) : Type 0 where
    pub token : Text
    pub is_bearer : bearer header ≡ some token
    pub verified : jwt.decode now token s.jwt_secret ≡ some c
    pub not_revoked : is_blacklisted s c.jti ≡ false

  auth_user-Identifies :
      (s : AuthState) (now : ℕ) (header : Option Text) (c : Claims)
      → auth_user s now header ≡ ok c
      → Identifies s now header c
  unfolding auth_user
  auth_user-Identifies s now header c h = elim (Option-cases (bearer header)) [
    | inl e ↦ absurd (ground (arith, e))
    | inr (token, e) ↦ elim (Option-cases (jwt.decode now token s.jwt_secret)) [
      | inl k ↦ absurd (ground (arith, e, k))
      | inr (d, k) ↦
          let same : d ≡ c = ground (arith, e, k) in
          record {
            token = token;
            is_bearer = e;
            verified = k ∙ ap some same;
            not_revoked = ground (arith, e, k, same);
          }
    ]
  ]

  Identifies-auth_user :
      (s : AuthState) (now : ℕ) (header : Option Text) (c : Claims)
      → Identifies s now header c
      → auth_user s now header ≡ ok c
  unfolding auth_user
  Identifies-auth_user s now header c i = ground (arith, i.is_bearer, i.verified, i.not_revoked)

  checked_role :
      (d c : Claims)
      → (if is_admin_role d.role
          then ok d
          else err (unauthorized (codes "Admin or super_admin role required")))
        ≡ ok c
      → (d ≡ c) × (is_admin_role c.role ≡ true)
  checked_role d c h = elim (Bool-cases (is_admin_role d.role)) [
    | inl e ↦ let same : d ≡ c = ok_inj (rw e at h) in (same, rw (← same) e)
    | inr e ↦ absurd (ground (arith, e))
  ]

  admin_role :
      (role : Text)
      → (role ≡ codes "admin") ⊎ (role ≡ codes "super_admin")
      → is_admin_role role ≡ true
  unfolding is_admin_role
  admin_role role h =
      ground (arith, text_eq_iff role (codes "admin"), text_eq_iff role (codes "super_admin"))

  -- The extractor of administrators lets exactly those in whose bearer token verifies, is not revoked,
  -- and has the role `admin` or `super_admin`.
  pub admin_user_iff :
      (s : AuthState) (now : ℕ) (header : Option Text) (c : Claims)
      → (admin_user s now header ≡ ok c)
        ↔ (Identifies s now header c × ((c.role ≡ codes "admin") ⊎ (c.role ≡ codes "super_admin")))
  unfolding admin_user
  admin_user_iff s now header c = (from_admin, to_admin)
    where
      check : Claims → AppResult Claims
      check d =
          if is_admin_role d.role
          then ok d
          else err (unauthorized (codes "Admin or super_admin role required"))

      role_of :
          is_admin_role c.role ≡ true → (c.role ≡ codes "admin") ⊎ (c.role ≡ codes "super_admin")
      role_of h =
          elim (or_inv (text_eq c.role (codes "admin")) (text_eq c.role (codes "super_admin")) h) [
            | inl e ↦ inl ((text_eq_iff c.role (codes "admin")).0 e)
            | inr e ↦ inr ((text_eq_iff c.role (codes "super_admin")).0 e)
          ]

      from_admin :
          admin_user s now header ≡ ok c
          → Identifies s now header c × ((c.role ≡ codes "admin") ⊎ (c.role ≡ codes "super_admin"))
      from_admin h =
          let (d, found, checked) = >>=-eq-ok (auth_user s now header) check h in
          let (same, admin) = checked_role d c checked in
          (auth_user-Identifies s now header c (found ∙ ap ok same), role_of admin)

      to_admin :
          Identifies s now header c × ((c.role ≡ codes "admin") ⊎ (c.role ≡ codes "super_admin"))
          → admin_user s now header ≡ ok c
      to_admin (i, r) = rw (Identifies-auth_user s now header c i) (rw (admin_role c.role r) refl)

min_le : (a b : ℕ) → min a b ≤ b
min_le a b = ground arith

expiry_le :
    (seconds hours : ℕ)
    → hours ≤ 168
    → (seconds + hours * 3600 % 2 ^ 64) % 2 ^ 64 ≤ seconds + 604800
expiry_le seconds hours h = omega arith

-- What `jsonwebtoken` documents: a token that it reads under the secret it was made with has the
-- claims it was made of, and its expiry is at most sixty seconds past.
pub record ExpiryLaw (jwt : JwtCrate) : Type 0 where
  pub made_of :
      (now : ℕ) (token secret : Text) (c d : Claims)
      → jwt.encode c secret ≡ some token
      → jwt.decode now token secret ≡ some d
      → (d ≡ c) × (now ≤ c.exp + 60)

module _ ⦃jwt : JwtCrate⦄ ⦃argon : Argon2⦄ where
  -- The token of a response, made for a user whose password was right.
  record Grants (s : AuthState) (request : LoginRequest) (input : LoginInput) (r : LoginResponse)
      : Type 0 where
    user : UserRow
    checked : checked_user request (some user) ≡ some user
    made :
        generate user.user_id request.login_username user.user_role s.jwt_secret
          (min s.jwt_expiry_hours max_expiry_hours)
          input.seconds
          input.uuid
        ≡ some r.token
    role_kept : r.login_role ≡ user.user_role

  checked_user_self :
      (request : LoginRequest) (row : Option UserRow) {user : UserRow}
      → checked_user request row ≡ some user
      → row ≡ some user
  unfolding checked_user
  checked_user_self request none h = cc
  checked_user_self request (some row) h = ground arith

  login_response-Grants :
      (s : AuthState) (request : LoginRequest) (user : UserRow) (input : LoginInput)
      (r : LoginResponse)
      → checked_user request (some user) ≡ some user
      → login_response s request user input ≡ ok r
      → Grants s request input r
  unfolding login_response
  login_response-Grants s request user input r h e =
      elim (Option-cases (
        generate user.user_id request.login_username user.user_role s.jwt_secret
          (min s.jwt_expiry_hours max_expiry_hours) input.seconds input.uuid)) [
            | inl n ↦ absurd (ground (arith, n))
            | inr (token, g) ↦ record {
              user = user;
              checked = h;
              made = ground (arith, g);
              role_kept = ground (arith, g);
            }
          ]

  finish_login-Grants :
      (s : AuthState) (ip : Text) (request : LoginRequest) (input : LoginInput) (r : LoginResponse)
      → (finish_login s ip request input).1 ≡ ok r
      → Grants s request input r
  unfolding finish_login login_response
  finish_login-Grants s ip request input r h = elim (AppResult-cases input.user_row) [
    | inl (e, k) ↦ absurd (ground (arith, k))
    | inr (row, k) ↦ elim (Option-cases (checked_user request row)) [
      | inl n ↦ absurd (ground (arith, k, n))
      | inr (user, n) ↦
          let self : checked_user request (some user) ≡ some user =
            rw (checked_user_self request row n) at n in
          let answer : login_response s request user input ≡ ok r = ground (arith, k, n) in
          login_response-Grants s request user input r self answer
    ]
  ]

  login-Grants :
      (s : AuthState) (ip : Text) (request : LoginRequest) (input : LoginInput) (r : LoginResponse)
      → (login s ip request input).1 ≡ ok r
      → Grants s request input r
  login-Grants s ip request input r h =
      elim (Bool-cases (is_limited s.login_attempts ip input.checked_at)) [
        | inl e ↦ absurd (ground (arith, login-limited s ip request input e))
        | inr e ↦
            let s' = with_attempts s (reset_attempts s.login_attempts ip input.checked_at) in
            let done : (finish_login s' ip request input).1 ≡ ok r =
              ap (λ (x : AuthState × AppResult LoginResponse). x.1)
                (sym (login-passed s ip request input e))
              ∙ h in
            let g = finish_login-Grants s' ip request input r done in
            record { user = g.user; checked = g.checked; made = g.made; role_kept = g.role_kept }
      ]

  read :
      (t : AuthState) (now : ℕ) (r : LoginResponse) (c : Claims) {secret : Text}
      → t.jwt_secret ≡ secret
      → Identifies t now (some (codes "Bearer " ++ r.token)) c
      → jwt.decode now r.token secret ≡ some c
  unfolding bearer strip_prefix
  read t now r c same i =
      let token : i.token ≡ r.token = ground (arith, i.is_bearer) in rw (← same, ← token) i.verified

  -- When a token that a login gave is accepted, under the same secret, it carries the role that the
  -- login's answer named, and no more than seven days and a minute have passed since, whatever
  -- lifetime is configured. The clock is below 2 ^ 63, and decoding a token is taken to give the
  -- claims it was made of, up to a minute after they expire.
  pub login-auth_user :
      (law : ExpiryLaw jwt) (s t : AuthState) (ip : Text) (request : LoginRequest)
      (input : LoginInput) (r : LoginResponse) (now : ℕ) (c : Claims)
      → input.seconds < 9223372036854775808
      → t.jwt_secret ≡ s.jwt_secret
      → (login s ip request input).1 ≡ ok r
      → auth_user t now (some (codes "Bearer " ++ r.token)) ≡ ok c
      → (c.role ≡ r.login_role) × (now ≤ input.seconds + 604860)
  unfolding generate new_claims
  login-auth_user law s t ip request input r now c small same granted got =
      let g = login-Grants s ip request input r granted in
      let i = auth_user-Identifies t now (some (codes "Bearer " ++ r.token)) c got in
      let claims =
        new_claims g.user.user_id request.login_username g.user.user_role
          (min s.jwt_expiry_hours max_expiry_hours) input.seconds input.uuid in
      let (same_claims, alive) =
        law.made_of now r.token s.jwt_secret claims c g.made (read t now r c same i) in
      (
        ap (λ (d : Claims). d.role) same_claims ∙ sym g.role_kept,
        omega (
          arith,
          expiry_le input.seconds (min s.jwt_expiry_hours max_expiry_hours)
              (min_le s.jwt_expiry_hours 168),
        ),
      )
