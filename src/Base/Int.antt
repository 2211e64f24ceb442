-- ===== src/Base/Int.antt =====
-- `i64` values, as far as the program orders them.
use Prim.Native.Nat.{ℕ}
use mathlib.Core.Path.{◌≡◌}
use mathlib.Core.Bool.{Bool, true, false}
use native.Mathlib.Omega.{arith}
use rust_dns_backend.Base.Test.{leb, ◌==◌}

-- `negsuc n` is -(n + 1).
pub data ℤ : Type 0 where
  pos : ℕ → ℤ
  negsuc : ℕ → ℤ

abbrev pub leb_ℤ : ℤ → ℤ → Bool
leb_ℤ (pos a) (pos b) = leb a b
leb_ℤ (pos a) (negsuc b) = false
leb_ℤ (negsuc a) (pos b) = true
leb_ℤ (negsuc a) (negsuc b) = leb b a

abbrev pub eq_ℤ : ℤ → ℤ → Bool
eq_ℤ (pos a) (pos b) = a == b
eq_ℤ (negsuc a) (negsuc b) = a == b
eq_ℤ _ _ = false

pub leb_ℤ_total : (a b : ℤ) → leb_ℤ a b ≡ false → leb_ℤ b a ≡ true
leb_ℤ_total a b h = ground arith

pub leb_ℤ_trans : (a b c : ℤ) → leb_ℤ a b ≡ true → leb_ℤ b c ≡ true → leb_ℤ a c ≡ true
leb_ℤ_trans a b c h k = ground arith

pub leb_ℤ_refl : (a : ℤ) → leb_ℤ a a ≡ true
leb_ℤ_refl a = ground arith

pub eq_ℤ→≡ : (a b : ℤ) → eq_ℤ a b ≡ true → a ≡ b
eq_ℤ→≡ a b h = ground arith
