-- ===== src/Matrix/Spanning/Relax.antt =====
-- What the inner loop does to each node.
use routing_mesh.Prelude.{
  ℕ, ◌+◌, ◌-◌, ◌≡◌, refl, inl, inr, Bool, true, false, not, ◌&&◌, some, arith, ltb, if◌then◌else◌,
  for_up_inv, upd, Bool-cases,
}
use routing_mesh.Prelude.Int.{pos, sub_ℕ, ltb_ℤ}
use routing_mesh.Matrix.{TdmaMatrix}
use routing_mesh.Matrix.Spanning.{
  Search, no_key, linked, both_ways, known_quality, cost, relax, visit,
}

-- A cost is at most 100, so always below the key of a node that no edge has reached.
pub cost-lt : {D : Type 0} (m : TdmaMatrix D) (u v : ℕ) → ltb_ℤ (cost m u v) (pos no_key) ≡ true
unfolding cost
cost-lt m u v = below (
    if not (both_ways m u v) && ltb 20 (known_quality m u v)
    then known_quality m u v - 20
    else known_quality m u v)
  where
    below : (q : ℕ) → ltb_ℤ (sub_ℕ 100 q) (pos no_key) ≡ true
    below q = ground arith

-- the edge from u is better than what node v has
abbrev pub better : {D : Type 0} → TdmaMatrix D → ℕ → Search → ℕ → Bool
better m u s v = linked m u v && not (s.in_mst v) && ltb_ℤ (cost m u v) (s.key v)

pub record Relaxed {D : Type 0} (m : TdmaMatrix D) (u : ℕ) (s : Search) (n : ℕ) (t : Search)
    : Type 0 where
  pub in_mst : (x : ℕ) → t.in_mst x ≡ s.in_mst x
  pub parent : (x : ℕ) → t.parent x ≡ (if ltb x n && better m u s x then some u else s.parent x)
  pub key : (x : ℕ) → t.key x ≡ (if ltb x n && better m u s x then cost m u x else s.key x)

relax-better :
    {D : Type 0} (m : TdmaMatrix D) (u v : ℕ) (s : Search)
    → better m u s v ≡ true
    → relax m u v s ≡ record s { parent = upd s.parent v (some u); key = upd s.key v (cost m u v) }
unfolding relax
relax-better m u v s h = ground arith

relax-worse :
    {D : Type 0} (m : TdmaMatrix D) (u v : ℕ) (s : Search)
    → better m u s v ≡ false
    → relax m u v s ≡ s
unfolding relax
relax-worse m u v s h = ground arith

-- Node k is as it was before its own round.
same_better :
    {D : Type 0} (m : TdmaMatrix D) (u : ℕ) (s : Search) (k : ℕ) (t : Search)
    → Relaxed m u s k t
    → better m u t k ≡ better m u s k
same_better m u s k t r = let e : t.key k ≡ s.key k = ground (arith, r.key k) in rw (e, r.in_mst k)

relax-Relaxed :
    {D : Type 0} (m : TdmaMatrix D) (u : ℕ) (s : Search) (k : ℕ) (t : Search)
    → Relaxed m u s k t
    → Relaxed m u s (k + 1) (relax m u k t)
relax-Relaxed m u s k t r = elim (Bool-cases (better m u t k)) [
  | inl hit ↦ rw (relax-better m u k t hit) (record {
    in_mst = λ x. r.in_mst x;
    parent = λ x. ground (arith, r.parent x, same_better m u s k t r);
    key = λ x. ground (arith, r.key x, same_better m u s k t r);
  })
  | inr miss ↦ rw (relax-worse m u k t miss) (record {
    in_mst = λ x. r.in_mst x;
    parent = λ x. ground (arith, r.parent x, same_better m u s k t r);
    key = λ x. ground (arith, r.key x, same_better m u s k t r);
  })
]

-- the state that a round's inner loop starts from
abbrev pub taken : ℕ → Search → Search
taken u s = record s { in_mst = upd s.in_mst u true }

pub visit-Relaxed :
    {D : Type 0} (m : TdmaMatrix D) (u : ℕ) (s : Search)
    → Relaxed m u (taken u s) m.active (visit m u s)
unfolding visit
visit-Relaxed m u s =
    for_up_inv (Relaxed m u (taken u s)) (relax m u) m.active 0 m.active (taken u s) (omega arith)
      (λ k t low high r. relax-Relaxed m u (taken u s) k t r)
      (record { in_mst = λ x. refl; parent = λ x. ground arith; key = λ x. ground arith })
