-- ===== src/Routing/Learned.antt =====
-- The identifiers of a matrix that has learned from a beacon, as the routing sees them.
use routing_mesh.Prelude.{ℕ, ◌<◌, ◌≡◌, sym, ap, ◌∙◌, true, false, arith, slice, ℕ_discrete, dec_lt}
use routing_mesh.Prelude.Float.{Float}
use routing_mesh.Matrix.{TdmaMatrix}
use routing_mesh.Matrix.Update.{matrix_update}
use routing_mesh.Matrix.Update.Ids.{known, update-known, has-slice}
use routing_mesh.Matrix.Update.Rising.{Apart, Rising-at, update-Rising}
use routing_mesh.Routing.Hops.{Distinct}
use routing_mesh.Routing.Mesh.{snapshot}

module _ (F : Float) (now : F.T) (other : ℕ) where
  -- If the matrix lists no node twice, and neither it nor the received one lists a node 0, then after the merge the
  -- identifiers rise with the index and none is 0, which is what the routing needs of them.
  pub update-Distinct :
      (g : TdmaMatrix F.T) (tree : ℕ → ℕ → ℕ) (new : TdmaMatrix F.T)
      → Apart (slice g.ids 0 g.active)
      → known g 0 ≡ false
      → known new 0 ≡ false
      → let (t, tree', changed) = matrix_update F now other g tree new in
        ((j k : ℕ) → j < k → k < t.active → t.ids j < t.ids k) × Distinct (snapshot t tree')
  update-Distinct g tree new h a b =
      let t = (matrix_update F now other g tree new).0 in
      let rise : (j k : ℕ) → j < k → k < t.active → t.ids j < t.ids k = λ j k lt below.
        Rising-at t.ids 0 t.active j k (update-Rising F now other g tree new h) (omega arith) lt
          (omega (arith, below)) in
      (
        rise,
        record {
          positive = λ i lt. elim (ℕ_discrete (t.ids i) 0) [
            | yes zero_id ↦
                let listed : known t (t.ids i) ≡ true =
                  has-slice t.ids 0 t.active i (omega arith) (omega (arith, lt)) in
                absurd (
                  ground (
                    arith,
                    sym (ap (known t) zero_id) ∙ listed,
                    update-known F now other g tree new 0,
                    a,
                    b,
                  ))
            | no other_id ↦ omega (arith, other_id)
          ];
          apart = λ i j p q e. elim (dec_lt i j) [
            | yes before ↦ absurd (omega (arith, rise i j before q, e))
            | no after ↦ elim (dec_lt j i) [
              | yes before ↦ absurd (omega (arith, rise j i before p, e))
              | no after' ↦ omega (arith, after, after')
            ]
          ];
        },
      )
