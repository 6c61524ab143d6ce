-- ===== src/Prelude/Float.antt =====
-- `float` and `double` are not code of the repository: a format is a parameter.
use Prim.Native.Nat.{ℕ}
use mathlib.Core.Bool.{Bool}
use routing_mesh.Prelude.Int.{ℤ}

-- The operations of one format that the sources use. `lit m k` is the literal m / 10^k,
-- `of_int` and `to_int` are the conversions of C (the second drops the fraction).
pub record Float : Type 1 where
  pub T : Type 0
  pub add : T → T → T
  pub sub : T → T → T
  pub mul : T → T → T
  pub div : T → T → T
  pub ltb : T → T → Bool
  pub leb : T → T → Bool
  pub of_int : ℤ → T
  pub to_int : T → ℤ
  pub lit : ℕ → ℕ → T
