-- ===== src/Prelude/Bits.antt =====
-- Statements on the bits of small numbers are evaluated, one number at a time.
use Prim.Native.Nat.{ℕ, zero, suc, ◌<◌}
use mathlib.Core.Path.{◌≡◌}
use mathlib.Core.Bool.{Bool, true, ◌&&◌}
use native.Mathlib.Omega.{arith}

-- The test passes for the numbers up to the bound, the bound left out.
unfoldable pub passes : (ℕ → Bool) → ℕ → Bool
passes test zero = true
passes test (suc bound) = passes test bound && test bound

pub passes_at :
    (test : ℕ → Bool) (bound i : ℕ) → i < bound → passes test bound ≡ true → test i ≡ true
unfolding passes
passes_at test zero i small all = absurd (omega arith)
passes_at test (suc bound) i small all = ground (arith, passes_at test bound i)
