-- ===== src/Prelude/Loops.antt =====
-- Counted loops, and the rule by which an invariant is carried through one.
use Prim.Native.Nat.{ℕ, zero, suc, ◌+◌, ◌<◌, ◌≤◌}
use mathlib.Core.Path.{◌≡◌}
use native.Mathlib.Omega.{arith}
use mathlib.Core.Path.{subst}

-- for (k = i; k < i + n; k++) s = body(k, s)
unfoldable pub for_up {ℓ} : {S : Type ℓ} → ℕ → ℕ → (ℕ → S → S) → S → S
for_up zero i body s = s
for_up (suc n) i body s = for_up n (i + 1) body (body i s)

-- What holds at the start and is kept by each round holds at the end.
pub for_up_inv {ℓ κ} :
    {S : Type ℓ} (P : ℕ → S → Type κ) (body : ℕ → S → S) (n i j : ℕ) (s : S)
    → i + n ≡ j
    → ((k : ℕ) (t : S) → i ≤ k → k < j → P k t → P (k + 1) (body k t))
    → P i s
    → P j (for_up n i body s)
unfolding for_up
for_up_inv P body zero i j s e keep h = subst (λ k. P k s) (omega arith) h
for_up_inv P body (suc n) i j s e keep h =
    for_up_inv P body n (i + 1) j (body i s) (omega arith) (λ k t a b. keep k t (omega arith) b)
      (keep i s (omega arith) (omega arith) h)
