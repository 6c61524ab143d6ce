-- ===== src/Prelude/Arrays.antt =====
-- C arrays of a fixed size as functions of the index, and their writes.
-- A bound on the indices that the code uses is proved where a component needs it.
use Prim.Native.Nat.{ℕ, zero, suc, ◌+◌, ◌-◌, ◌<◌}
use mathlib.Core.Path.{◌≡◌, refl, ap, ap₂, ◌∙◌}
use mathlib.Core.List.{List, [], ◌∷◌, ◌++◌}
use mathlib.Core.Bool.{◌&&◌}
use native.Mathlib.Omega.{arith}
use routing_mesh.Prelude.Tests.{◌==◌, ltb, leb, if◌then◌else◌}
use routing_mesh.Prelude.Lists.{length}

-- a[i] = v
abbrev pub upd {ℓ} : {A : Type ℓ} → (ℕ → A) → ℕ → A → ℕ → A
upd a i v x = if x == i then v else a x

-- a[i][j] = v
abbrev pub upd2 {ℓ} : {A : Type ℓ} → (ℕ → ℕ → A) → ℕ → ℕ → A → ℕ → ℕ → A
upd2 a i j v x y = if x == i && y == j then v else a x y

-- memmove(&a[p], &a[p + 1], c * sizeof *a)
abbrev pub move_down {ℓ} : {A : Type ℓ} → (ℕ → A) → ℕ → ℕ → ℕ → A
move_down a p c x = if leb p x && ltb x (p + c) then a (x + 1) else a x

-- the entries a[i], …, a[i + n - 1]
abbrev pub slice {ℓ} : {A : Type ℓ} → (ℕ → A) → ℕ → ℕ → List A
slice a i zero = []
slice a i (suc n) = a i ∷ slice a (i + 1) n

pub length-slice {ℓ} : {A : Type ℓ} (a : ℕ → A) (i n : ℕ) → length (slice a i n) ≡ n
length-slice a i zero = refl
length-slice a i (suc n) = ap suc (length-slice a (i + 1) n)

-- Two slices agree where their entries do.
pub slice_ext {ℓ} :
    {A : Type ℓ} (a b : ℕ → A) (i j n : ℕ)
    → ((k : ℕ) → k < n → a (i + k) ≡ b (j + k))
    → slice a i n ≡ slice b j n
slice_ext a b i j zero h = refl
slice_ext a b i j (suc n) h =
    ap₂ ◌∷◌ (first (h 0 (omega arith)))
      (slice_ext a b (i + 1) (j + 1) n (λ k lt. shift k (h (suc k) (omega arith))))
  where
    first : a (i + 0) ≡ b (j + 0) → a i ≡ b j
    first e = ground arith

    shift : (k : ℕ) → a (i + suc k) ≡ b (j + suc k) → a (i + 1 + k) ≡ b (j + 1 + k)
    shift k e = ground arith

pub slice-snoc {ℓ} :
    {A : Type ℓ} (a : ℕ → A) (i n : ℕ) → slice a i (n + 1) ≡ slice a i n ++ a (i + n) ∷ []
slice-snoc a i zero = ground arith
slice-snoc a i (suc n) =
    let e : suc n + 1 ≡ suc (n + 1) = omega arith in
    let k : i + 1 + n ≡ i + suc n = omega arith in
    rw e (ap (λ r. a i ∷ r) (slice-snoc a (i + 1) n ∙ ap (λ j. slice a (i + 1) n ++ a j ∷ []) k))

pub slice-step {ℓ} :
    {A : Type ℓ} (a : ℕ → A) (i n : ℕ)
    → i < n
    → slice a i (n - i) ≡ a i ∷ slice a (i + 1) (n - (i + 1))
slice-step a i n h = let k : n - i ≡ suc (n - (i + 1)) = omega arith in rw k

pub slice-snoc_zero {ℓ} :
    {A : Type ℓ} (a : ℕ → A) (n : ℕ) → slice a 0 (n + 1) ≡ slice a 0 n ++ a n ∷ []
slice-snoc_zero a n =
    let e : 0 + n ≡ n = omega arith in slice-snoc a 0 n ∙ ap (λ j. slice a 0 n ++ a j ∷ []) e
