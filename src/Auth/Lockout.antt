-- ===== src/Auth/Lockout.antt =====
-- src/api/handlers/auth.rs: logins from one address, one after the other.
use rust_dns_backend.Base.{
  ℕ, zero, suc, ◌+◌, ◌%◌, ◌≤◌, ◌<◌, ◌≡◌, refl, ap, ◌∙◌, true, false, Option, none, some, List, [],
  ◌∷◌, leb, arith, min, All, length, ◌++◌, length-append,
}
use rust_dns_backend.Text.{Text}
use mathlib.Core.Path.{ap₂}
use rust_dns_backend.Text.Laws.{text_eq_refl}
use rust_dns_backend.Map.{map_get-remove, map_remove, map_get, map_insert, map_get-insert_self}
use rust_dns_backend.Error.{AppResult, ok, err, auth_failed, too_many_requests}
use rust_dns_backend.Auth.Limiter.{
  Attempts, failure_window, max_login_failures, is_expired, is_limited, reset_attempts,
  record_login_failure,
}
use rust_dns_backend.Auth.{
  JwtCrate, Argon2, AuthState, UserRow, LoginRequest, LoginResponse, LoginInput, with_attempts,
  checked_user, finish_login, login, login_response, generate, max_expiry_hours,
}

module _ (now start : ℕ) (h : now ≤ start + failure_window) where
  is_expired_within : is_expired now start ≡ false
  unfolding is_expired
  is_expired_within = ground arith

module _ (a : Attempts) (ip : Text) (count start : ℕ) (found : map_get ip a ≡ some (count, start))
    (now : ℕ) (within : now ≤ start + failure_window) where
  pub is_limited_within : is_limited a ip now ≡ leb max_login_failures count
  unfolding is_limited
  is_limited_within = ground (arith, is_expired_within now start within)

  pub reset_attempts_within : reset_attempts a ip now ≡ a
  unfolding reset_attempts
  reset_attempts_within = ground (arith, is_expired_within now start within)

  pub record_within :
      count + 1 < 4294967296 → record_login_failure a ip now ≡ map_insert ip (count + 1, start) a
  unfolding record_login_failure
  record_within small =
      let same : (count + 1) % 4294967296 ≡ count + 1 = omega arith in
      ground (arith, is_expired_within now start within, same)

-- A window that is over.
module _ (a : Attempts) (ip : Text) (count start : ℕ) (found : map_get ip a ≡ some (count, start))
    (now : ℕ) (over : start + failure_window < now) where
  expired : is_expired now start ≡ true
  unfolding is_expired
  expired = ground arith

  pub is_limited_over : is_limited a ip now ≡ false
  unfolding is_limited
  is_limited_over = ground (arith, expired)

  pub reset_attempts_over : reset_attempts a ip now ≡ map_insert ip (0, now) a
  unfolding reset_attempts
  reset_attempts_over = ground (arith, expired)

module _ ⦃jwt : JwtCrate⦄ ⦃argon : Argon2⦄ where
  -- A login with a wrong name or password, or of a user that is not active.
  pub record IsWrong (attempt : LoginRequest × LoginInput) : Type 0 where
    pub row : Option UserRow
    pub row_read : attempt.1.user_row ≡ ok row
    pub no_user : checked_user attempt.0 row ≡ none

  -- Both instants of the login lie in the window.
  pub record IsWithin (start : ℕ) (attempt : LoginRequest × LoginInput) : Type 0 where
    pub check_within : attempt.1.checked_at ≤ start + failure_window
    pub end_within : attempt.1.finished_at ≤ start + failure_window

  unfoldable pub run_logins :
      AuthState
      → Text
      → List (LoginRequest × LoginInput)
      → AuthState × List (AppResult LoginResponse)
  unfolding login
  run_logins s ip [] = (s, [])
  run_logins s ip ((request, input) ∷ attempts) =
      let (s', r) = login s ip request input in
      let (s'', rs) = run_logins s' ip attempts in (s'', r ∷ rs)

  -- While tries are left a wrong login is told so, and then every login is turned away.
  abbrev pub outcomes : ℕ → ℕ → List (AppResult LoginResponse)
  outcomes left zero = []
  outcomes zero (suc n) = err too_many_requests ∷ outcomes zero n
  outcomes (suc left) (suc n) = err auth_failed ∷ outcomes left n

  finish_login-wrong :
      (s : AuthState) (ip : Text) (request : LoginRequest) (input : LoginInput)
      → IsWrong (request, input)
      → finish_login s ip request input ≡ (
        with_attempts s (record_login_failure s.login_attempts ip input.finished_at),
        err auth_failed,
      )
  unfolding finish_login
  finish_login-wrong s ip request input w = ground (arith, w.row_read, w.no_user)

  pub login-limited :
      (s : AuthState) (ip : Text) (request : LoginRequest) (input : LoginInput)
      → is_limited s.login_attempts ip input.checked_at ≡ true
      → login s ip request input ≡ (s, err too_many_requests)
  unfolding login
  login-limited s ip request input h = rw h

  pub login-passed :
      (s : AuthState) (ip : Text) (request : LoginRequest) (input : LoginInput)
      → is_limited s.login_attempts ip input.checked_at ≡ false
      → login s ip request input
        ≡ finish_login
            (with_attempts s (reset_attempts s.login_attempts ip input.checked_at))
            ip
            request
            input
  unfolding login
  login-passed s ip request input h = rw h

  login-wrong :
      (s : AuthState) (ip : Text) (request : LoginRequest) (input : LoginInput) (count start : ℕ)
      → map_get ip s.login_attempts ≡ some (count, start)
      → count < max_login_failures
      → IsWithin start (request, input)
      → IsWrong (request, input)
      → login s ip request input
        ≡ (with_attempts s (map_insert ip (count + 1, start) s.login_attempts), err auth_failed)
  login-wrong s ip request input count start found few within wrong =
      let open_ : is_limited s.login_attempts ip input.checked_at ≡ false =
        is_limited_within s.login_attempts ip count start found input.checked_at within.check_within
        ∙ ground arith in
      let same =
        reset_attempts_within s.login_attempts ip count start found input.checked_at
          within.check_within in
      login-passed s ip request input open_
      ∙ (rw same (finish_login-wrong s ip request input wrong)
          ∙ ap (λ (a : Attempts). (with_attempts s a, err auth_failed))
              (record_within s.login_attempts ip count start found input.finished_at
                within.end_within (omega arith)))

  login-first :
      (s : AuthState) (ip : Text) (request : LoginRequest) (input : LoginInput)
      → map_get ip s.login_attempts ≡ none
      → IsWrong (request, input)
      → login s ip request input
        ≡ (with_attempts s (map_insert ip (1, input.finished_at) s.login_attempts), err auth_failed)
  unfolding is_limited reset_attempts record_login_failure
  login-first s ip request input fresh wrong =
      let open_ : is_limited s.login_attempts ip input.checked_at ≡ false = ground arith in
      let same : reset_attempts s.login_attempts ip input.checked_at ≡ s.login_attempts =
        ground arith in
      let first : record_login_failure s.login_attempts ip input.finished_at
          ≡ map_insert ip (1, input.finished_at) s.login_attempts =
        ground arith in
      login-passed s ip request input open_
      ∙ (ap (λ (a : Attempts). finish_login (with_attempts s a) ip request input) same
          ∙ (finish_login-wrong s ip request input wrong
              ∙ ap (λ (a : Attempts). (with_attempts s a, err auth_failed)) first))

  run_logins-step :
      (s : AuthState) (ip : Text) (x : LoginRequest × LoginInput)
      (xs : List (LoginRequest × LoginInput)) {s' : AuthState} {r : AppResult LoginResponse}
      → login s ip x.0 x.1 ≡ (s', r)
      → (run_logins s ip (x ∷ xs)).1 ≡ r ∷ (run_logins s' ip xs).1
  unfolding run_logins
  run_logins-step s ip x xs h = rw h

  run_logins-limited :
      (s : AuthState) (ip : Text) (others : List (LoginRequest × LoginInput)) (count start : ℕ)
      → map_get ip s.login_attempts ≡ some (count, start)
      → max_login_failures ≤ count
      → All (IsWithin start) others
      → (run_logins s ip others).1 ≡ outcomes 0 (length others)
  unfolding run_logins
  run_logins-limited s ip [] count start found full within = refl
  run_logins-limited s ip (x ∷ xs) count start found full within =
      let shut : is_limited s.login_attempts ip x.1.checked_at ≡ true =
        is_limited_within s.login_attempts ip count start found x.1.checked_at within.0.check_within
        ∙ ground arith in
      run_logins-step s ip x xs (login-limited s ip x.0 x.1 shut)
      ∙ ap (λ (rs : List (AppResult LoginResponse)). err too_many_requests ∷ rs)
          (run_logins-limited s ip xs count start found full within.1)

  run_logins-counted :
      (s : AuthState) (ip : Text) (wrongs others : List (LoginRequest × LoginInput))
      (count start : ℕ)
      → map_get ip s.login_attempts ≡ some (count, start)
      → count + length wrongs ≡ max_login_failures
      → All IsWrong wrongs
      → All (IsWithin start) wrongs
      → All (IsWithin start) others
      → (run_logins s ip (wrongs ++ others)).1
        ≡ outcomes (length wrongs) (length (wrongs ++ others))
  run_logins-counted s ip [] others count start found total w in_window later =
      run_logins-limited s ip others count start found (omega arith) later
  run_logins-counted s ip (x ∷ xs) others count start found total w in_window later =
      let s' = with_attempts s (map_insert ip (count + 1, start) s.login_attempts) in
      run_logins-step s ip x (xs ++ others)
        (login-wrong s ip x.0 x.1 count start found (omega arith) in_window.0 w.0)
      ∙ ap (λ (rs : List (AppResult LoginResponse)). err auth_failed ∷ rs)
          (run_logins-counted s' ip xs others (count + 1) start
            (map_get-insert_self ip (count + 1, start) s.login_attempts) (omega arith) w.1
            in_window.1 later)

  -- Five wrong logins from an address that has no record, and then any others, one after the other
  -- and within fifteen minutes of the end of the first: the five are told that they failed, and every
  -- other is turned away, whatever password it brings.
  pub run_logins-locked :
      (s : AuthState) (ip : Text) (first : LoginRequest × LoginInput)
      (wrongs others : List (LoginRequest × LoginInput))
      → map_get ip s.login_attempts ≡ none
      → 1 + length wrongs ≡ max_login_failures
      → IsWrong first
      → All IsWrong wrongs
      → All (IsWithin first.1.finished_at) wrongs
      → All (IsWithin first.1.finished_at) others
      → (run_logins s ip (first ∷ wrongs ++ others)).1
        ≡ outcomes max_login_failures (max_login_failures + length others)
  run_logins-locked s ip first wrongs others fresh total w ws in_window later =
      let start = first.1.finished_at in
      let s' = with_attempts s (map_insert ip (1, start) s.login_attempts) in
      let four : length wrongs ≡ 4 = omega arith in
      let all : length (wrongs ++ others) ≡ 4 + length others =
        omega (arith, length-append wrongs others) in
      let five : max_login_failures + length others ≡ suc (4 + length others) = omega arith in
      let rest =
        run_logins-counted s' ip wrongs others 1 start
          (map_get-insert_self ip (1, start) s.login_attempts) total ws in_window later in
      run_logins-step s ip first (wrongs ++ others) (login-first s ip first.0 first.1 fresh w)
      ∙ rw five (
          ap (λ (rs : List (AppResult LoginResponse)). err auth_failed ∷ rs)
            (rest ∙ ap₂ (λ (l n : ℕ). outcomes l n) four all))

  finish_login-right :
      (s : AuthState) (ip : Text) (request : LoginRequest) (input : LoginInput) (row : UserRow)
      → input.user_row ≡ ok (some row)
      → checked_user request (some row) ≡ some row
      → finish_login s ip request input
        ≡ (with_attempts s (map_remove ip s.login_attempts), login_response s request row input)
  unfolding finish_login login_response
  finish_login-right s ip request input row row_read right = ground (arith, row_read, right)

  -- Whatever was counted against an address: once the fifteen minutes of its window are over, a login
  -- with the right name and password is answered with a token for the user and the user's role, and
  -- the record of the address is gone. Signing the token is taken to succeed.
  pub login-after_window :
      (s : AuthState) (ip : Text) (request : LoginRequest) (input : LoginInput) (row : UserRow)
      (count start : ℕ) {token : Text}
      → map_get ip s.login_attempts ≡ some (count, start)
      → start + failure_window < input.checked_at
      → input.user_row ≡ ok (some row)
      → row.is_active ≡ true
      → argon.verify_password request.password row.password_hash ≡ true
      → generate row.user_id request.login_username row.user_role s.jwt_secret
          (min s.jwt_expiry_hours max_expiry_hours)
          input.seconds
          input.uuid
        ≡ some token
      → (response : LoginResponse) × ((login s ip request input).1 ≡ ok response)
        × (response.token ≡ token)
        × (response.login_role ≡ row.user_role)
        × (map_get ip (login s ip request input).0.login_attempts ≡ none)
  unfolding login_response checked_user
  login-after_window s ip request input row count start found over row_read active right signed =
      let a = s.login_attempts in
      let opened = is_limited_over a ip count start found input.checked_at over in
      let s' = with_attempts s (reset_attempts a ip input.checked_at) in
      let run =
        login-passed s ip request input opened
        ∙ finish_login-right s' ip request input row row_read (rw (active, right) refl) in
      let gone : map_get ip (map_remove ip s'.login_attempts) ≡ none =
        rw (map_get-remove ip ip s'.login_attempts, text_eq_refl ip) in
      rw run (rw signed (_, refl, refl, refl, gone))
