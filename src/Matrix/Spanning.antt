-- ===== src/Matrix/Spanning.antt =====
-- `primAlgorithm_weighted`: the spanning tree over the links of the matrix.
pub mod Pick
pub mod Relax
pub mod Tree
pub mod Edges
use routing_mesh.Prelude.{
  ℕ, zero, suc, ◌-◌, Bool, true, false, ◌&&◌, ◌||◌, not, Option, none, some, ltb, leb, ◌==◌,
  if◌then◌else◌, upd, upd2, for_up,
}
use routing_mesh.Prelude.Int.{ℤ, pos, sub_ℕ, ltb_ℤ}
use routing_mesh.Matrix.{TdmaMatrix, initial_link_quality}

abbrev pub no_key : ℕ
no_key = 999

-- the three arrays of the algorithm; the -1 of parent[] is `none`
pub record Search : Type 0 where
  pub in_mst : ℕ → Bool
  pub parent : ℕ → Option ℕ
  pub key : ℕ → ℤ

module _ {D : Type 0} (m : TdmaMatrix D) where
  -- fwd || rev
  abbrev pub linked : ℕ → ℕ → Bool
  linked u v = not (m.matrix u v == 0) || not (m.matrix v u == 0)

  abbrev pub both_ways : ℕ → ℕ → Bool
  both_ways u v = not (m.matrix u v == 0) && not (m.matrix v u == 0)

  -- `quality`, before the penalty
  pub known_quality : ℕ → ℕ → ℕ
  known_quality u v =
      let q = if m.quality u v == 0 then m.quality v u else m.quality u v in
      if q == 0 then initial_link_quality else q

  pub cost : ℕ → ℕ → ℤ
  cost u v =
      let q = known_quality u v in sub_ℕ 100 (if not (both_ways u v) && ltb 20 q then q - 20 else q)

  -- the inner loop's body
  pub relax : ℕ → ℕ → Search → Search
  relax u v s =
      if linked u v && not (s.in_mst v)
      then (if ltb_ℤ (cost u v) (s.key v)
          then record s { parent = upd s.parent v (some u); key = upd s.key v (cost u v) }
          else s)
      else s

  pub visit : ℕ → Search → Search
  visit u s = for_up m.active 0 (relax u) (record s { in_mst = upd s.in_mst u true })

-- the search for the smallest key: the key so far, and its node if one was found
pub pick_step : Search → ℕ → ℤ × Option ℕ → ℤ × Option ℕ
pick_step s v (best, u) =
    if not (s.in_mst v) && ltb_ℤ (s.key v) best then (s.key v, some v) else (best, u)

pub pick : Search → ℕ → ℤ × Option ℕ
pick s n = for_up n 0 (pick_step s) (pos no_key, none)

module _ {D : Type 0} (m : TdmaMatrix D) where
  -- the outer loop, with the rounds left; `if (u == -1) break`
  pub prim_loop : ℕ → Search → Search
  prim_loop zero s = s
  prim_loop (suc n) s = elim ((pick s m.active).1) [ none ↦ s | some u ↦ prim_loop n (visit m u s) ]

  pub start : Search
  start = record {
    in_mst = λ _. false;
    parent = λ _. none;
    key = λ v. if v == 0 then pos 0 else pos no_key;
  }

  pub search : Search
  search = prim_loop m.active start

-- g_spanningTree[parent[i]][i] and its mirror image
pub add_edge : Search → ℕ → (ℕ → ℕ → ℕ) → ℕ → ℕ → ℕ
add_edge s i tree = elim (s.parent i) [ none ↦ tree | some p ↦ upd2 (upd2 tree p i 1) i p 1 ]

-- g_spanningTree after `primAlgorithm_weighted`
pub prim : {D : Type 0} → TdmaMatrix D → ℕ → ℕ → ℕ
prim m =
    if leb m.active 1 then (λ _ _. 0) else for_up (m.active - 1) 1 (add_edge (search m)) (λ _ _. 0)
