-- ===== src/Common/Numbers.antt =====
-- Process ids as `int(...)` reads them from a file: any sign.
use Prim.Native.Nat.{ℕ, zero, suc}
use mathlib.Core.Path.{◌≡◌}
use mathlib.Core.Bool.{Bool, true, false}
use native.Mathlib.Omega.{arith}
use tunstrap.Common.Tests.{◌==◌}

-- `negsuc n` is -(n + 1).
pub data ℤ : Type 0 where
  pos : ℕ → ℤ
  negsuc : ℕ → ℤ

-- `pid > 0`
abbrev pub is_positive : ℤ → Bool
is_positive (pos zero) = false
is_positive (pos (suc n)) = true
is_positive (negsuc n) = false

-- `a == b` on signed numbers.
abbrev pub same_int : ℤ → ℤ → Bool
same_int (pos a) (pos b) = a == b
same_int (negsuc a) (negsuc b) = a == b
same_int _ _ = false

pub same_int→eq : (a b : ℤ) → same_int a b ≡ true → a ≡ b
same_int→eq (pos a) (pos b) h = ground arith
same_int→eq (negsuc a) (negsuc b) h = ground arith
same_int→eq (pos a) (negsuc b) h = ground arith
same_int→eq (negsuc a) (pos b) h = ground arith
