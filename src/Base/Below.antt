-- ===== src/Base/Below.antt =====
-- A family proved below a bound by its proofs at each number.
use Prim.Native.Nat.{ℕ, zero, suc, ◌<◌}
use mathlib.Core.Path.{◌≡◌, sym, subst}
use mathlib.Core.Logic.{◌⊎◌, inl, inr}
use native.Mathlib.Omega.{arith}

-- The proofs at `k - 1` down to 0.
abbrev pub AllBelow {ℓ} : (ℕ → Type ℓ) → ℕ → Type ℓ
AllBelow P zero = Unit
AllBelow P (suc k) = P k × AllBelow P k

below-cases : (n k : ℕ) → n < suc k → (n ≡ k) ⊎ (n < k)
below-cases n k l = omega (arith)

none_below : (n : ℕ) → n < 0 → ⊥
none_below n l = omega (arith)

pub below {ℓ} : (P : ℕ → Type ℓ) (k : ℕ) → AllBelow P k → (n : ℕ) → n < k → P n
below P zero ps n l = elim (none_below n l) [ ]
below P (suc k) (p, ps) n l = elim (below-cases n k l) [
  | inl e ↦ subst P (sym e) p
  | inr l' ↦ below P k ps n l'
]
