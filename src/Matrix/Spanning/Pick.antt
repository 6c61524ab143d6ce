-- ===== src/Matrix/Spanning/Pick.antt =====
-- The node that each round takes: outside the tree, with the smallest key.
use routing_mesh.Prelude.{
  ℕ, ◌+◌, ◌<◌, ◌≡◌, refl, ◌∙◌, ℕ_discrete, Bool, true, false, not, ◌&&◌, Option, none, some, arith,
  for_up_inv,
}
use routing_mesh.Prelude.Int.{ℤ, pos, ltb_ℤ}
use routing_mesh.Matrix.Spanning.{Search, no_key, pick_step, pick}

-- what the search over the first k nodes has found
pub data Found (s : Search) (k : ℕ) (r : ℤ × Option ℕ) : Type 0 where
  nothing :
      r ≡ (pos no_key, none)
      → ((v : ℕ) → v < k → s.in_mst v ≡ false → ltb_ℤ (s.key v) (pos no_key) ≡ false)
      → Found s k r
  least :
      (u : ℕ)
      → r ≡ (s.key u, some u)
      → u < k
      → s.in_mst u ≡ false
      → ltb_ℤ (s.key u) (pos no_key) ≡ true
      → ((v : ℕ) → v < k → s.in_mst v ≡ false → ltb_ℤ (s.key v) (s.key u) ≡ false)
      → Found s k r

pick_step-hit :
    (s : Search) (k : ℕ) (best : ℤ) (u : Option ℕ)
    → (not (s.in_mst k) && ltb_ℤ (s.key k) best) ≡ true
    → pick_step s k (best, u) ≡ (s.key k, some k)
unfolding pick_step
pick_step-hit s k best u h = rw h

pick_step-miss :
    (s : Search) (k : ℕ) (best : ℤ) (u : Option ℕ)
    → (not (s.in_mst k) && ltb_ℤ (s.key k) best) ≡ false
    → pick_step s k (best, u) ≡ (best, u)
unfolding pick_step
pick_step-miss s k best u h = rw h

-- A bound on the keys before k, or one that node k meets, is one on the keys up to k.
below_next :
    (s : Search) (k : ℕ) (old new : ℤ)
    → ((v : ℕ) → v < k → s.in_mst v ≡ false → ltb_ℤ (s.key v) old ≡ false)
    → ltb_ℤ old new ≡ false
    → (s.in_mst k ≡ false → ltb_ℤ (s.key k) new ≡ false)
    → (v : ℕ) → v < k + 1
    → s.in_mst v ≡ false
    → ltb_ℤ (s.key v) new ≡ false
below_next s k old new all le here v lt out = elim (ℕ_discrete v k) [
  | yes e ↦ ground arith
  | no other ↦ ground (arith, all v)
]

pick_step-Found :
    (s : Search) (k : ℕ) (best : ℤ) (u : Option ℕ) (b : Bool)
    → (not (s.in_mst k) && ltb_ℤ (s.key k) best) ≡ b
    → Found s k (best, u)
    → Found s (k + 1) (pick_step s k (best, u))
pick_step-Found s k best u true h (nothing e all) =
    least k (pick_step-hit s k best u h) (omega arith) (ground arith) (ground arith)
      (below_next s k (pos no_key) (s.key k) all (ground arith) (λ out. ground arith))
pick_step-Found s k best u false h (nothing e all) =
    nothing (pick_step-miss s k best u h ∙ e)
      (below_next s k (pos no_key) (pos no_key) all (ground arith) (λ out. ground arith))
pick_step-Found s k best u true h (least w e lt out small min) =
    least k (pick_step-hit s k best u h) (omega arith) (ground arith) (ground arith)
      (below_next s k (s.key w) (s.key k) min (ground arith) (λ out. ground arith))
pick_step-Found s k best u false h (least w e lt out small min) =
    least w (pick_step-miss s k best u h ∙ e) (omega arith) out small
      (below_next s k (s.key w) (s.key w) min (ground arith) (λ out. ground arith))

pub pick-Found : (s : Search) (n : ℕ) → Found s n (pick s n)
unfolding pick
pick-Found s n =
    for_up_inv (Found s) (pick_step s) n 0 n (pos no_key, none) (omega arith)
      (λ k t low high f. pick_step-Found s k t.0 t.1 _ refl f)
      (nothing refl (λ v lt. absurd (omega arith)))
