-- ===== src/Base/Finite.antt =====
-- Statements about the numbers below a numeral, case by case.
use Prim.Native.Nat.{ℕ, zero, suc, ◌<◌}
use mathlib.Core.Path.{◌≡◌, subst}
use mathlib.Core.Logic.{◌⊎◌, inl, inr}
use native.Mathlib.Omega.{arith}

-- P holds at n - 1, ..., 0.
abbrev pub Below {ℓ} : ℕ → (ℕ → Type ℓ) → Type ℓ
Below zero P = Unit
Below (suc n) P = P n × Below n P

last_or_below : (k n : ℕ) → k < suc n → (n ≡ k) ⊎ (k < n)
last_or_below k n h = grind arith

pub Below-at {ℓ} : (n : ℕ) (P : ℕ → Type ℓ) (k : ℕ) → Below n P → k < n → P k
Below-at zero P k h l = elim l [ ]
Below-at (suc n) P k h l = elim (last_or_below k n l) [
  | inl e ↦ subst P e h.0
  | inr m ↦ Below-at n P k h.1 m
]
