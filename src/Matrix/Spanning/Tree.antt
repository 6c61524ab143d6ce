-- ===== src/Matrix/Spanning/Tree.antt =====
-- The parents that the algorithm leaves make a tree that spans the part of the mesh around node 0.
use routing_mesh.Prelude.{
  ℕ, zero, suc, ◌≤◌, ◌<◌, ◌≡◌, ◌≢◌, ap, ◌∙◌, fun_ext, inl, inr, ◌↔◌, true, false, Option, none,
  some, arith, upd, Option-cases, ℕ_discrete, outside, outside-upd, outside-le, outside-zero,
}
use routing_mesh.Prelude.Int.{ℤ, pos, ltb_ℤ}
use routing_mesh.Matrix.{TdmaMatrix}
use routing_mesh.Matrix.Spanning.{Search, no_key, linked, pick, visit, prim_loop, start, search}
use routing_mesh.Matrix.Spanning.Pick.{nothing, least, pick-Found}
use routing_mesh.Matrix.Spanning.Relax.{cost-lt, Relaxed, taken, visit-Relaxed}

-- the nodes that a walk along links reaches from node 0
pub data Joined {D : Type 0} (m : TdmaMatrix D) : ℕ → Type 0 where
  here : Joined m 0
  step : {u v : ℕ} → Joined m u → linked m u v ≡ true → v < m.active → Joined m v

-- the nodes from which the parents lead back to node 0, along links
pub data Rooted {D : Type 0} (m : TdmaMatrix D) (s : Search) : ℕ → Type 0 where
  root : Rooted m s 0
  up :
      {v p : ℕ}
      → Rooted m s p
      → s.parent v ≡ some p
      → s.in_mst v ≡ true
      → linked m p v ≡ true
      → v < m.active
      → Rooted m s v

pub Rooted-Joined : {D : Type 0} {m : TdmaMatrix D} {s : Search} {v : ℕ} → Rooted m s v → Joined m v
Rooted-Joined root = here
Rooted-Joined (up r e i l h) = step (Rooted-Joined r) l h

-- What each round keeps.
pub record Inv {D : Type 0} (m : TdmaMatrix D) (s : Search) : Type 0 where
  pub rooted : (v : ℕ) → s.in_mst v ≡ true → Rooted m s v
  pub orphan : (v : ℕ) → v ≢ 0 → s.parent v ≡ none → ltb_ℤ (s.key v) (pos no_key) ≡ false
  pub from :
      (v p : ℕ) → s.parent v ≡ some p → (s.in_mst p ≡ true) × (linked m p v ≡ true) × (v < m.active)
  pub frontier :
      (u v : ℕ)
      → s.in_mst u ≡ true
      → s.in_mst v ≡ false
      → linked m u v ≡ true
      → v < m.active
      → ltb_ℤ (s.key v) (pos no_key) ≡ true
  pub waiting : s.in_mst 0 ≡ false → ltb_ℤ (s.key 0) (pos no_key) ≡ true

start-Inv : {D : Type 0} (m : TdmaMatrix D) → Inv m (start m)
unfolding start
start-Inv m = record {
  rooted = λ v h. cc;
  orphan = λ v h e. ground arith;
  from = λ v p e. cc;
  frontier = λ u v h. cc;
  waiting = λ h. ground arith;
}

module _ {D : Type 0} (m : TdmaMatrix D) where
  Rooted-kept :
      (s t : Search)
      → ((x : ℕ) → s.in_mst x ≡ true → (t.in_mst x ≡ true) × (t.parent x ≡ s.parent x))
      → {v : ℕ} → Rooted m s v
      → Rooted m t v
  Rooted-kept s t keep root = root
  Rooted-kept s t keep (up {v} r e i l h) =
      up (Rooted-kept s t keep r) ((keep v i).1 ∙ e) ((keep v i).0) l h

  -- the node that a round takes is rooted when its inner loop has run
  module _ (s : Search) (u : ℕ) (inv : Inv m s) (h : u < m.active) (out : s.in_mst u ≡ false)
      (small : ltb_ℤ (s.key u) (pos no_key) ≡ true) where
    r : Relaxed m u (taken u s) m.active (visit m u s)
    r = visit-Relaxed m u s

    kept :
        (x : ℕ)
        → s.in_mst x ≡ true
        → ((visit m u s).in_mst x ≡ true) × ((visit m u s).parent x ≡ s.parent x)
    kept x i = ground (arith, r.in_mst x, r.parent x)

    taken-Rooted : Rooted m (visit m u s) u
    taken-Rooted = elim (ℕ_discrete u 0) [
      | yes e ↦ rw e root
      | no other ↦ elim (Option-cases (s.parent u)) [
        | inl e ↦ ground (arith, inv.orphan u other)
        | inr (p, e) ↦
            let (i, l, b) = inv.from u p e in
            up (Rooted-kept s (visit m u s) kept (inv.rooted p i)) (ground (arith, r.parent u))
              (ground (arith, r.in_mst u)) l b
      ]
    ]

    visit-Inv : Inv m (visit m u s)
    visit-Inv = record {
      rooted = λ v i. elim (ℕ_discrete v u) [
        | yes e ↦ rw e taken-Rooted
        | no other ↦ Rooted-kept s (visit m u s) kept (inv.rooted v (ground (arith, r.in_mst v)))
      ];
      orphan = λ v nz e. ground (arith, r.parent v, r.key v, inv.orphan v nz);
      from = λ v p e. ground (arith, r.parent v, r.in_mst p, r.in_mst u, inv.from v p);
      frontier = λ a v i o l b.
          ground (arith, r.key v, r.in_mst v, r.in_mst a, cost-lt m u v, inv.frontier a v);
      waiting = λ o. ground (arith, r.key 0, r.in_mst 0, cost-lt m u 0, inv.waiting);
    }

  -- what holds when the loop ends: no node outside the tree has been reached by an edge
  pub record Finished (t : Search) : Type 0 where
    pub inv : Inv m t
    pub none_left :
        (v : ℕ) → v < m.active → t.in_mst v ≡ false → ltb_ℤ (t.key v) (pos no_key) ≡ false

  prim_loop-none : (n : ℕ) (s : Search) → (pick s m.active).1 ≡ none → prim_loop m (suc n) s ≡ s
  unfolding prim_loop
  prim_loop-none n s e = rw (e, prim_loop)

  prim_loop-some :
      (n : ℕ) (s : Search) (u : ℕ)
      → (pick s m.active).1 ≡ some u
      → prim_loop m (suc n) s ≡ prim_loop m n (visit m u s)
  unfolding prim_loop
  prim_loop-some n s u e = rw (e, prim_loop)

  outside-visit :
      (s : Search) (u : ℕ)
      → u < m.active
      → s.in_mst u ≡ false
      → suc (outside (visit m u s).in_mst m.active) ≡ outside s.in_mst m.active
  outside-visit s u h out =
      let same : (visit m u s).in_mst ≡ upd s.in_mst u true =
        fun_ext (visit-Relaxed m u s).in_mst in
      rw same (outside-upd s.in_mst u m.active h out)

  prim_loop-Finished :
      (n : ℕ) (s : Search) → Inv m s → outside s.in_mst m.active ≤ n → Finished (prim_loop m n s)
  prim_loop-Finished zero s inv h =
      unfold prim_loop in
      (record {
        inv = inv;
        none_left = λ v lt o. ground (arith, outside-zero s.in_mst m.active v (omega arith) lt);
      })
  prim_loop-Finished (suc n) s inv h = elim (pick-Found s m.active) [
    | nothing e all ↦
        rw (prim_loop-none n s (ap (λ (r : ℤ × Option ℕ). r.1) e))
          (record { inv = inv; none_left = all })
    | least u e lt out small min ↦ rw (prim_loop-some n s u (ap (λ (r : ℤ × Option ℕ). r.1) e)) (
        prim_loop-Finished n (visit m u s) (visit-Inv s u inv lt out small)
          (omega (arith, outside-visit s u lt out)))
  ]

  pub search-Finished : Finished (search m)
  unfolding search start
  search-Finished =
      prim_loop-Finished m.active (start m) (start-Inv m)
        (omega (arith, outside-le (start m).in_mst m.active))

  Joined-in : (t : Search) → Finished t → 0 < m.active → (v : ℕ) → Joined m v → t.in_mst v ≡ true
  Joined-in t f h _ here = ground (arith, f.none_left 0, f.inv.waiting)
  Joined-in t f h _ (step {u} {v} j l b) =
      let i = Joined-in t f h u j in ground (arith, f.none_left v, f.inv.frontier u v)

  -- The algorithm ends within its rounds, and its parents lead from a node back to node 0 exactly if
  -- a walk along links leads from node 0 to it: the tree spans the part of the mesh around node 0.
  pub search_spans : 0 < m.active → (v : ℕ) → Joined m v ↔ Rooted m (search m) v
  search_spans h v = (
    λ j. search-Finished.inv.rooted v (Joined-in (search m) search-Finished h v j),
    Rooted-Joined,
  )
