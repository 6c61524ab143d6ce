-- ===== src/Matrix/Spanning/Edges.antt =====
-- g_spanningTree, the matrix of the tree.
use routing_mesh.Prelude.{
  ℕ, ◌+◌, ◌-◌, ◌≤◌, ◌<◌, ◌≡◌, ◌≢◌, ◌↔◌, refl, sym, ◌∙◌, subst, inl, inr, Bool, true, false, ◌&&◌,
  ◌||◌, Option, none, some, arith, ltb, leb, ◌==◌, if◌then◌else◌, for_up_inv, Bool-cases,
  ℕ_discrete,
}
use routing_mesh.Matrix.{TdmaMatrix}
use routing_mesh.Matrix.Spanning.{Search, linked, add_edge, search, prim}
use routing_mesh.Matrix.Spanning.Tree.{
  Joined, here, step, Rooted, root, up, search-Finished, search_spans,
}

abbrev is_parent : Search → ℕ → ℕ → Bool
is_parent s p v = elim (s.parent v) [ none ↦ false | some q ↦ q == p ]

-- the edge between x and y has been written, when the nodes below k have been gone through
abbrev written : Search → ℕ → ℕ → ℕ → Bool
written s k x y = (leb 1 y && ltb y k && is_parent s x y) || (leb 1 x && ltb x k && is_parent s y x)

add_edge-written :
    (s : Search) (k : ℕ) (t : ℕ → ℕ → ℕ)
    → 1 ≤ k
    → ((x y : ℕ) → t x y ≡ (if written s k x y then 1 else 0))
    → (x y : ℕ) → add_edge s k t x y ≡ (if written s (k + 1) x y then 1 else 0)
unfolding add_edge
add_edge-written s k t h ih x y = ground (arith, ih x y)

pub prim-written :
    {D : Type 0} (m : TdmaMatrix D)
    → 2 ≤ m.active
    → (x y : ℕ) → prim m x y ≡ (if written (search m) m.active x y then 1 else 0)
unfolding prim
prim-written m h x y =
    let many : leb m.active 1 ≡ false = ground arith in
    rw many (
      for_up_inv
        (λ k (t : ℕ → ℕ → ℕ). (x y : ℕ) → t x y ≡ (if written (search m) k x y then 1 else 0))
        (add_edge (search m)) (m.active - 1) 1 m.active (λ _ _. 0) (omega arith)
        (λ k t low high ih x y. add_edge-written (search m) k t low ih x y) (λ x y. ground arith) x
        y)

-- With at least two nodes, the matrix of the tree is symmetric.
pub prim_sym : {D : Type 0} (m : TdmaMatrix D) → 2 ≤ m.active → (x y : ℕ) → prim m x y ≡ prim m y x
prim_sym m h x y = ground (arith, prim-written m h x y, prim-written m h y x)

-- the nodes that the written tree joins to node 0
pub data TreeJoined {D : Type 0} (m : TdmaMatrix D) : ℕ → Type 0 where
  start : TreeJoined m 0
  along : {u v : ℕ} → TreeJoined m u → prim m u v ≡ 1 → v < m.active → TreeJoined m v

linked_sym : {D : Type 0} (m : TdmaMatrix D) (u v : ℕ) → linked m u v ≡ true → linked m v u ≡ true
linked_sym m u v h = ground (arith, h)

module _ {D : Type 0} (m : TdmaMatrix D) (h : 2 ≤ m.active) where
  parent_edge : (p v : ℕ) → (search m).parent v ≡ some p → v ≢ 0 → v < m.active → prim m p v ≡ 1
  parent_edge p v e ne lt =
      let i : is_parent (search m) p v ≡ true = at ((search m).parent v) e in
      prim-written m h p v ∙ ground (arith, i)
    where
      at :
          (o : Option ℕ)
          → o ≡ some p
          → elim o as (λ _. Bool) [ none ↦ false | some q ↦ q == p ] ≡ true
      at none e' = cc
      at (some q) e' = ground (arith, e')

  Rooted-TreeJoined : {v : ℕ} → Rooted m (search m) v → TreeJoined m v
  Rooted-TreeJoined root = start
  Rooted-TreeJoined (up {v} {p} r e i l lt) = elim (ℕ_discrete v 0) [
    | yes same ↦ subst (TreeJoined m) (sym same) start
    | no differ ↦ along (Rooted-TreeJoined r) (parent_edge p v e differ lt) lt
  ]

  is_parent-linked : (p v : ℕ) → is_parent (search m) p v ≡ true → linked m p v ≡ true
  is_parent-linked p v i = at ((search m).parent v) refl i
    where
      at :
          (o : Option ℕ)
          → (search m).parent v ≡ o
          → elim o as (λ _. Bool) [ none ↦ false | some q ↦ q == p ] ≡ true
          → linked m p v ≡ true
      at none e b = cc
      at (some q) e b =
          let same : q ≡ p = ground (arith, b) in
          subst (λ z. linked m z v ≡ true) same (((search-Finished m).inv.from v q e).1)

  pub edge-linked : (u v : ℕ) → prim m u v ≡ 1 → linked m u v ≡ true
  edge-linked u v e = elim (Bool-cases (is_parent (search m) u v)) [
    | inl down ↦ is_parent-linked u v down
    | inr not_down ↦ elim (Bool-cases (is_parent (search m) v u)) [
      | inl above ↦ linked_sym m v u (is_parent-linked v u above)
      | inr neither ↦ absurd (ground (arith, prim-written m h u v, e, not_down, neither))
    ]
  ]

  TreeJoined-Joined : {v : ℕ} → TreeJoined m v → Joined m v
  TreeJoined-Joined start = here
  TreeJoined-Joined (along {u} {v} j e lt) = step (TreeJoined-Joined j) (edge-linked u v e) lt

  -- With at least two nodes, the spanning tree that is written joins a node to node 0 exactly if a walk along links does.
  pub prim_spans : (v : ℕ) → Joined m v ↔ TreeJoined m v
  prim_spans v = (λ j. Rooted-TreeJoined ((search_spans m (omega arith) v).0 j), TreeJoined-Joined)

-- The entries of the tree are 0 and 1.
pub prim_bit :
    {D : Type 0} (m : TdmaMatrix D) → 2 ≤ m.active → (x y : ℕ) → prim m x y ≢ 0 → prim m x y ≡ 1
prim_bit m h x y ne = ground (arith, prim-written m h x y)
