-- ===== src/Base/Table.antt =====
-- Facts about small numbers, checked by evaluation.
use msdelta.Base.Tests.{◌==◌}
use Prim.Native.Nat.{ℕ, zero, suc, ◌<◌}
use mathlib.Core.Path.{◌≡◌}
use mathlib.Core.Bool.{Bool, true, ◌&&◌}
use native.Mathlib.Omega.{arith}

module _ (f g : ℕ → ℕ) where
  abbrev pub agree : ℕ → Bool
  agree zero = true
  agree (suc n) = f n == g n && agree n

  -- Two functions that agree at every number below `n`.
  pub agree→eq : (n : ℕ) → agree n ≡ true → (i : ℕ) → i < n → f i ≡ g i
  agree→eq zero e i h = absurd (omega arith)
  agree→eq (suc n) e i h = ground (arith, agree→eq n (ground arith) i)
