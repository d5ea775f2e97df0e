-- ===== src/Prelude/Int.antt =====
-- The 64-bit signed integers of the source, which carry no arithmetic beyond an increment.
use Prim.Native.Nat.{ℕ, zero, suc}
use mathlib.Core.Path.{◌≡◌}
use mathlib.Core.Logic.{◌↔◌}
use mathlib.Core.Bool.{Bool, true, false, ◌&&◌}
use native.Mathlib.Omega.{arith}
use temp_js.Prelude.Tests.{leb, ◌==◌, if◌then◌else◌}

-- `negsuc n` is -(n + 1).
pub data ℤ : Type 0 where
  pos : ℕ → ℤ
  negsuc : ℕ → ℤ

abbrev pub leb_ℤ : ℤ → ℤ → Bool
leb_ℤ (pos a) (pos b) = leb a b
leb_ℤ (pos a) (negsuc b) = false
leb_ℤ (negsuc a) (pos b) = true
leb_ℤ (negsuc a) (negsuc b) = leb b a

abbrev pub eq_ℤ : ℤ → ℤ → Bool
eq_ℤ (pos a) (pos b) = a == b
eq_ℤ (negsuc a) (negsuc b) = a == b
eq_ℤ _ _ = false

abbrev pub succ_ℤ : ℤ → ℤ
succ_ℤ (pos a) = pos (suc a)
succ_ℤ (negsuc zero) = pos 0
succ_ℤ (negsuc (suc a)) = negsuc a

-- `n + 1` of an `i64` in a release build, which has no overflow checks.
abbrev pub succ_i64 : ℤ → ℤ
succ_i64 n = if eq_ℤ n (pos 9223372036854775807) then negsuc 9223372036854775807 else succ_ℤ n

-- `(lo..=hi).contains(&n)`
abbrev pub within : ℤ → ℤ → ℤ → Bool
within lo hi n = leb_ℤ lo n && leb_ℤ n hi

pub eq_ℤ_iff : (a b : ℤ) → (eq_ℤ a b ≡ true) ↔ (a ≡ b)
eq_ℤ_iff (pos a) (pos b) = ground arith
eq_ℤ_iff (pos a) (negsuc b) = ground arith
eq_ℤ_iff (negsuc a) (pos b) = ground arith
eq_ℤ_iff (negsuc a) (negsuc b) = ground arith
