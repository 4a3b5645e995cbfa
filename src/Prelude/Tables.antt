-- ===== src/Prelude/Tables.antt =====
-- A table: a Boolean test that is run on every number below a bound.
use Prim.Native.Nat.{ℕ, zero, suc, ◌<◌}
use mathlib.Core.Path.{◌≡◌}
use mathlib.Core.Bool.{Bool, true, ◌&&◌}
use native.Mathlib.Omega.{arith}

unfoldable pub holds_below : (test : ℕ → Bool) → (bound : ℕ) → Bool
holds_below test zero = true
holds_below test (suc bound) = holds_below test bound && test bound

pub holds_below_entry :
    (test : ℕ → Bool) (bound : ℕ)
    → holds_below test bound ≡ true
    → (i : ℕ) → i < bound
    → test i ≡ true
unfolding holds_below
holds_below_entry test zero whole i small = absurd (omega arith)
holds_below_entry test (suc bound) whole i small =
    ground (arith, λ (e : holds_below test bound ≡ true). holds_below_entry test bound e i)
