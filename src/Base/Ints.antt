-- ===== src/Base/Ints.antt =====
-- The C `int` return codes: `pos n` is n and `negsuc n` is -(n + 1).
use Prim.Native.Nat.{ℕ, ◌-◌}
use mathlib.Core.Bool.{Bool, true, false}
use onboarding.Base.Tests.{◌==◌}

pub data ℤ : Type 0 where
  pos : ℕ → ℤ
  negsuc : ℕ → ℤ

-- `rc < 0`
abbrev pub is_neg : ℤ → Bool
is_neg (pos n) = false
is_neg (negsuc n) = true

-- `rc == 0`
abbrev pub is_zero : ℤ → Bool
is_zero (pos n) = n == 0
is_zero (negsuc n) = false

-- `rc > 0`
abbrev pub is_pos : ℤ → Bool
is_pos (pos n) = elim (n == 0) [ true ↦ false | false ↦ true ]
is_pos (negsuc n) = false

-- -1
abbrev pub minus_one : ℤ
minus_one = negsuc 0

-- `-errno` for a positive errno.
abbrev pub neg_errno : ℕ → ℤ
neg_errno e = negsuc (e - 1)
