-- ===== src/Prelude/Ranges.antt =====
-- Facts about small ranges of numbers, checked value by value.
use Prim.Native.Nat.{ℕ, zero, suc, ◌<◌}
use mathlib.Core.Path.{◌≡◌}
use mathlib.Core.Bool.{Bool, true, false}
use native.Mathlib.Omega.{arith}
use yt_websub.Prelude.Tests.{if◌then◌else◌}

-- The test on each number below the bound, the largest first.
unfoldable pub holds_below : (ℕ → Bool) → ℕ → Bool
holds_below test zero = true
holds_below test (suc top) = if test top then holds_below test top else false

pub holds_below-at :
    (test : ℕ → Bool) (bound i : ℕ) → holds_below test bound ≡ true → i < bound → test i ≡ true
unfolding holds_below
holds_below-at test zero i passed small = absurd (omega arith)
holds_below-at test (suc top) i passed small = ground (arith, holds_below-at test top i)
