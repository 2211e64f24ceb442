-- ===== src/Auth/Limiter.antt =====
-- src/api/handlers/auth.rs: the failures of each client address, with the start of its window.
use rust_dns_backend.Base.{ℕ, ◌+◌, ◌-◌, ◌%◌, ◌^◌, Bool, false, none, some, ltb, leb, if◌then◌else◌}
use rust_dns_backend.Text.{Text}
use rust_dns_backend.Map.{Map, map_get, map_insert}

abbrev pub max_login_failures : ℕ
max_login_failures = 5

-- Fifteen minutes in nanoseconds.
abbrev pub failure_window : ℕ
failure_window = 900000000000

abbrev pub Attempts : Type 0
Attempts = Map (ℕ × ℕ)

-- `window_start.elapsed() > FAILURE_WINDOW`
unfoldable pub is_expired : ℕ → ℕ → Bool
is_expired now start = ltb failure_window (now - start)

-- `should_reject`
unfoldable pub is_limited : Attempts → Text → ℕ → Bool
unfolding map_get is_expired
is_limited attempts ip now = elim (map_get ip attempts) [
  | none ↦ false
  | some (count, start) ↦ if is_expired now start then false else leb max_login_failures count
]

-- A window that is over starts anew.
unfoldable pub reset_attempts : Attempts → Text → ℕ → Attempts
unfolding map_get map_insert is_expired
reset_attempts attempts ip now = elim (map_get ip attempts) [
  | none ↦ attempts
  | some (count, start) ↦ if is_expired now start then map_insert ip (0, now) attempts else attempts
]

-- `u32` counts wrap.
unfoldable pub record_login_failure : Attempts → Text → ℕ → Attempts
unfolding map_get map_insert is_expired
record_login_failure attempts ip now = elim (map_get ip attempts) [
  | none ↦ map_insert ip (1, now) attempts
  | some (count, start) ↦
      if is_expired now start
      then map_insert ip (1, now) attempts
      else map_insert ip ((count + 1) % 2 ^ 32, start) attempts
]
