-- ===== src/Routing/Mesh.antt =====
-- From the links to the routes: the table that a node computes from the spanning tree of its matrix.
use routing_mesh.Prelude.{
  ℕ, ◌≤◌, ◌<◌, ◌≡◌, ◌≢◌, refl, sym, ap, ap₂, subst, ◌⊎◌, inl, inr, Bool, true, false, some, arith,
  ℕ_discrete,
}
use routing_mesh.Matrix.{TdmaMatrix}
use routing_mesh.Matrix.Spanning.{linked, prim}
use routing_mesh.Matrix.Spanning.Tree.{Joined}
use routing_mesh.Matrix.Spanning.Edges.{
  TreeJoined, start, along, prim_spans, prim_sym, edge-linked, prim_bit,
}
use routing_mesh.Matrix.Sound.{SameMesh}
use routing_mesh.Routing.{Entry, View, Manager, KernelCall, only, find_node_index, recompute}
use routing_mesh.Routing.Reach.{Walk, stop, hop}
use routing_mesh.Routing.Hops.{Distinct}
use routing_mesh.Routing.Table.{Route, by, cut, recompute-Route}

-- `MATRIX_get_snapshot` of the matrix and the spanning tree, as the event handler passes it on
abbrev pub snapshot : {D : Type 0} → TdmaMatrix D → (ℕ → ℕ → ℕ) → View
snapshot m tree = record { mst = tree; link_quality = m.quality; ids = m.ids; n = m.active }

abbrev none_marked : ℕ → Bool
none_marked _ = false

module _ (mst : ℕ → ℕ → ℕ) (n : ℕ) where
  Walk-snoc :
      {a : ℕ → Bool} {u i : ℕ} (v : ℕ)
      → Walk mst n a u i
      → mst u v ≢ 0
      → v < n
      → a v ≡ false
      → Walk mst n a v i
  Walk-snoc v stop e lt o = hop e lt o stop
  Walk-snoc v (hop e' l' o' w) e lt o = hop e' l' o' (Walk-snoc v w e lt o)

  -- a walk to d has a last part that does not come to me
  LeavesMe : ℕ → ℕ → Type 0
  LeavesMe me d = (i : ℕ) × (i < n) × (mst me i ≢ 0) × Walk mst n (only me) d i

  from_me : (me d x : ℕ) → x ≡ me → d ≢ me → Walk mst n (only me) d x → LeavesMe me d
  unfolding LeavesMe
  from_me me d x e ne stop = absurd (ne e)
  from_me me d x e ne (hop {j = j} f lt o w) = (j, lt, subst (λ z. mst z j ≢ 0) e f, w)

  last_part :
      (me d : ℕ)
      → d ≢ me
      → {x : ℕ} → Walk mst n none_marked d x
      → Walk mst n (only me) d x ⊎ LeavesMe me d
  last_part me d ne stop = inl stop
  last_part me d ne (hop {j = j} f lt o w) = elim (last_part me d ne w) [
    | inr leaves ↦ inr leaves
    | inl rest ↦ elim (ℕ_discrete j me) [
      | yes back ↦ inr (from_me me d j back ne rest)
      | no on ↦ inl (hop f lt (ground arith) rest)
    ]
  ]

  leaves : (me d : ℕ) → d ≢ me → Walk mst n none_marked d me → LeavesMe me d
  leaves me d ne w = elim (last_part me d ne w) [ inr l ↦ l | inl r ↦ from_me me d me refl ne r ]

module _ {D : Type 0} (m : TdmaMatrix D) (h : 2 ≤ m.active) where
  below : {v : ℕ} → TreeJoined m v → v < m.active
  below start = omega arith
  below (along j e lt) = lt

  from_root : {v : ℕ} → TreeJoined m v → Walk (prim m) m.active none_marked v 0
  from_root start = stop
  from_root (along {u} {v} j e lt) =
      Walk-snoc (prim m) m.active v (from_root j) (λ z. ground arith) lt refl

  to_root :
      {v d : ℕ}
      → TreeJoined m v
      → Walk (prim m) m.active none_marked d 0
      → Walk (prim m) m.active none_marked d v
  to_root start w = w
  to_root (along {u} {v} j e lt) w =
      hop (λ z. ground (arith, prim_sym m h u v, e, z)) (below j) refl (to_root j w)

  no_loop : (i : ℕ) → m.matrix i i ≡ 0 → prim m i i ≡ 0
  no_loop i z = elim (ℕ_discrete (prim m i i) 0) [
    | yes same ↦ same
    | no differ ↦ absurd (unlinked (edge-linked m h i i (prim_bit m h i i differ)))
  ]
    where
      unlinked : linked m i i ≡ true → ⊥
      unlinked l = ground (arith, l, z)

-- The tree of a matrix m with at least two nodes, whose identifiers are positive and differ, in which this node stands at
-- index me, has no link to itself and is joined to node 0 by links. The matrix t has the same nodes and links, whatever its
-- qualities are. After a recomputation from the snapshot of t and the tree, the entry of every other node d that links join
-- to node 0 is valid, names node d and gives as next hop a neighbour of this node in the tree.
pub mesh_routed :
    {D E : Type 0} (m t : TdmaMatrix D) (rm : Manager E KernelCall) (me d : ℕ)
    → SameMesh m t
    → 2 ≤ m.active
    → Distinct (snapshot m (prim m))
    → find_node_index m.ids m.active rm.my_node_id ≡ some me
    → m.matrix me me ≡ 0
    → Joined m me
    → Joined m d
    → d ≢ me
    → let e = (recompute rm (snapshot t (prim m))).table d in
      (e.valid ≡ true)
      × (e.destination ≡ m.ids d)
      × ((i : ℕ) × (i < m.active) × (prim m me i ≡ 1) × (e.next_hop ≡ m.ids i))
unfolding LeavesMe
mesh_routed {D} m t rm me d same h ids self loop jm jd ne =
    let tm = (prim_spans m h me).0 jm in
    let td = (prim_spans m h d).0 jd in
    let v = record (snapshot m (prim m)) { link_quality = t.quality } in
    let u : snapshot t (prim m) ≡ v =
      ap₂ (λ (a : ℕ → ℕ) (n : ℕ). record v { ids = a; n = n }) same.ids same.active in
    subst (λ (w : View). Routed ((recompute rm w).table d)) (sym u)
      (routed
        (recompute-Route v (record { positive = ids.positive; apart = ids.apart }) rm.my_node_id me
          d self (no_loop m h me loop) (below m h td) ne rm refl)
        (leaves (prim m) m.active me d ne (to_root m h tm (from_root m h td))))
  where
    Routed : Entry → Type 0
    Routed e =
        (e.valid ≡ true)
        × (e.destination ≡ m.ids d)
        × ((i : ℕ) × (i < m.active) × (prim m me i ≡ 1) × (e.next_hop ≡ m.ids i))

    routed :
        {e : Entry}
        → Route (record (snapshot m (prim m)) { link_quality = t.quality }) me d e
        → LeavesMe (prim m) m.active me d
        → Routed e
    routed (by i lt edge w q) l =
        (ap (λ r. r.valid) q, ap (λ r. r.destination) q, (i, lt, edge, ap (λ r. r.next_hop) q))
    routed (cut q none_here) l = absurd (none_here (l.0) (l.1) (prim_bit m h me (l.0) (l.2)) (l.3))
