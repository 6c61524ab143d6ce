-- ===== src/Prelude/Counting.antt =====
-- Counting the flags that are not set, the measure of a search that sets one in each round.
use Prim.Native.Nat.{ℕ, zero, suc, ◌≤◌, ◌<◌}
use mathlib.Core.Path.{◌≡◌, refl}
use mathlib.Core.Bool.{Bool, true, false}
use native.Mathlib.Omega.{arith}
use native.Mathlib.Decide.{ℕ_discrete}
use routing_mesh.Prelude.Tests.{if◌then◌else◌}
use routing_mesh.Prelude.Arrays.{upd}

-- how many of f 0, …, f (k - 1) are false
pub outside : (ℕ → Bool) → ℕ → ℕ
outside f zero = 0
outside f (suc k) = if f k then outside f k else suc (outside f k)

pub outside-upd_ge : (f : ℕ → Bool) (u k : ℕ) → k ≤ u → outside (upd f u true) k ≡ outside f k
unfolding outside
outside-upd_ge f u zero h = refl
outside-upd_ge f u (suc k) h = ground (arith, outside-upd_ge f u k)

pub outside-upd :
    (f : ℕ → Bool) (u k : ℕ) → u < k → f u ≡ false → suc (outside (upd f u true) k) ≡ outside f k
unfolding outside
outside-upd f u zero h e = absurd (omega arith)
outside-upd f u (suc k) h e = ground (arith, outside-upd f u k, outside-upd_ge f u k)

pub outside-le : (f : ℕ → Bool) (k : ℕ) → outside f k ≤ k
unfolding outside
outside-le f zero = omega arith
outside-le f (suc k) = ground (arith, outside-le f k)

pub outside-zero : (f : ℕ → Bool) (k v : ℕ) → outside f k ≡ 0 → v < k → f v ≡ true
unfolding outside
outside-zero f zero v e h = absurd (omega arith)
outside-zero f (suc k) v e h = elim (ℕ_discrete v k) [
  | yes same ↦ ground arith
  | no other ↦ ground (arith, outside-zero f k v)
]

-- Setting more flags leaves fewer unset.
pub outside_mono :
    (f g : ℕ → Bool) (k : ℕ) → ((x : ℕ) → f x ≡ true → g x ≡ true) → outside g k ≤ outside f k
unfolding outside
outside_mono f g zero h = omega arith
outside_mono f g (suc k) h = ground (arith, outside_mono f g k h, h k)
