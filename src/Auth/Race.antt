-- ===== src/Auth/Race.antt =====
-- src/api/handlers/auth.rs: logins from one address that overlap. The limiter's check and the record
-- of a failure each hold the lock of the address, and the password is checked between them.
use rust_dns_backend.Base.{
  ℕ, zero, suc, ◌+◌, ◌≤◌, ◌<◌, ◌≡◌, refl, ◌⊎◌, inl, inr, false, none, some, [], arith,
}
use rust_dns_backend.Text.{Text}
use rust_dns_backend.Map.{map_get, map_insert, map_get-insert_self}
use rust_dns_backend.Auth.Limiter.{
  Attempts, failure_window, is_limited, reset_attempts, record_login_failure,
}
use rust_dns_backend.Auth.Lockout.{is_limited_within, reset_attempts_within, record_within}

-- The attempts, the logins between the two locks, and how many passwords turned out wrong.
pub record World : Type 0 where
  pub attempts : Attempts
  pub in_flight : ℕ
  pub wrong : ℕ

abbrev pub start_world : World
start_world = record { attempts = []; in_flight = 0; wrong = 0 }

module _ (ip : Text) (limit : ℕ) where
  -- Wrong logins only, at instants of the first fifteen minutes, at most `limit` of them at once.
  pub data Step : World → World → Type 0 where
    begin :
        (w : World) (now : ℕ)
        → now ≤ failure_window
        → w.in_flight < limit
        → is_limited w.attempts ip now ≡ false
        → Step w
            (record w { attempts = reset_attempts w.attempts ip now; in_flight = suc w.in_flight })
    fail :
        (w : World) (now n : ℕ)
        → now ≤ failure_window
        → w.in_flight ≡ suc n
        → Step w (record {
          attempts = record_login_failure w.attempts ip now;
          in_flight = n;
          wrong = suc w.wrong;
        })

  pub data Reach (s : World) : World → Type 0 where
    here : Reach s s
    next : {t u : World} → Reach s t → Step t u → Reach s u

  -- The record of the address counts the wrong passwords.
  abbrev Counted : Attempts → ℕ → Type 0
  Counted a n = ((map_get ip a ≡ none) × (n ≡ 0)) ⊎ ((start : ℕ) × (map_get ip a ≡ some (n, start)))

  record IsBounded (w : World) : Type 0 where
    counted : Counted w.attempts w.wrong
    few : w.in_flight ≤ limit
    bounded : w.wrong + w.in_flight ≤ 4 + limit

  module _ (small : limit < 4294967290) where
    reset-Counted :
        (a : Attempts) (n now : ℕ)
        → now ≤ failure_window
        → Counted a n
        → Counted (reset_attempts a ip now) n
    unfolding reset_attempts
    reset-Counted a n now h (inl (fresh, zero_)) = inl (ground arith, zero_)
    reset-Counted a n now h (inr (start, found)) =
        inr (start, rw (reset_attempts_within a ip n start found now (omega arith)) found)

    record-Counted :
        (a : Attempts) (n now : ℕ)
        → now ≤ failure_window
        → n + 1 < 4294967296
        → Counted a n
        → Counted (record_login_failure a ip now) (suc n)
    unfolding record_login_failure
    record-Counted a n now h few (inl (fresh, zero_)) =
        let first : record_login_failure a ip now ≡ map_insert ip (1, now) a = ground arith in
        let one : suc n ≡ 1 = omega arith in
        inr (now, rw (first, one) (map_get-insert_self ip (1, now) a))
    record-Counted a n now h few (inr (start, found)) =
        let again = record_within a ip n start found now (omega arith) few in
        let one : suc n ≡ n + 1 = omega arith in
        inr (start, rw (again, one) (map_get-insert_self ip (n + 1, start) a))

    admitted :
        (a : Attempts) (n now : ℕ)
        → now ≤ failure_window
        → Counted a n
        → is_limited a ip now ≡ false
        → n ≤ 4
    admitted a n now h (inl (fresh, zero_)) opened = omega arith
    admitted a n now h (inr (start, found)) opened =
        let test = is_limited_within a ip n start found now (omega arith) in ground arith

    Step-IsBounded : {w u : World} → Step w u → IsBounded w → IsBounded u
    Step-IsBounded (begin w now h free opened) b =
        let below = admitted w.attempts w.wrong now h b.counted opened in
        record {
          counted = reset-Counted w.attempts w.wrong now h b.counted;
          few = omega arith;
          bounded = omega (arith, b.few, below);
        }
    Step-IsBounded (fail w now n h busy) b = record {
      counted = record-Counted w.attempts w.wrong now h (omega (arith, b.bounded, busy)) b.counted;
      few = omega (arith, b.few, busy);
      bounded = omega (arith, b.bounded, busy);
    }

    Reach-IsBounded : {w : World} → Reach start_world w → IsBounded w
    unfolding map_get
    Reach-IsBounded here = record {
      counted = inl (refl, refl);
      few = omega arith;
      bounded = omega arith;
    }
    Reach-IsBounded (next r s) = Step-IsBounded s (Reach-IsBounded r)

    -- Of wrong logins from one address within fifteen minutes, at most `limit` of them at once, no more
    -- than four and `limit` have their password checked, in whatever order their steps come.
    pub Reach-wrong_le : {w : World} → Reach start_world w → w.wrong ≤ 4 + limit
    Reach-wrong_le r = let b = Reach-IsBounded r in omega (arith, b.bounded)

  begins :
      (n now : ℕ)
      → n ≤ limit
      → Reach start_world (record { attempts = []; in_flight = n; wrong = 0 })
  unfolding is_limited reset_attempts map_get
  begins zero now h = here
  begins (suc n) now h = next (begins n now (omega arith)) (
      begin (record { attempts = []; in_flight = n; wrong = 0 }) 0 (omega arith) (omega arith) refl)

  fails :
      (n done : ℕ) (a : Attempts)
      → Reach start_world (record { attempts = a; in_flight = n; wrong = done })
      → (w : World) × Reach start_world w × (w.wrong ≡ n + done)
  fails zero done a r = (record { attempts = a; in_flight = 0; wrong = done }, r, omega arith)
  fails (suc n) done a r =
      let (w, r', e) = fails n (suc done) (record_login_failure a ip 0) (
        next r (
          fail (record { attempts = a; in_flight = suc n; wrong = done }) 0 n (omega arith)
            refl)) in
      (w, r', omega arith)

  -- The limit of five is not kept by logins that overlap: as many as run at once can all have their
  -- password checked, however many these are.
  pub Reach-all_wrong : (w : World) × Reach start_world w × (w.wrong ≡ limit)
  Reach-all_wrong =
      let (w, r, e) = fails limit 0 [] (begins limit 0 (omega arith)) in (w, r, omega arith)
