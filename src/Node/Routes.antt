-- ===== src/Node/Routes.antt =====
-- The routes of a running node: what the event handler leaves when the tree is that of the links.
use routing_mesh.Prelude.{ℕ, ◌≤◌, ◌<◌, ◌≡◌, ◌≢◌, refl, sym, ap, ◌∙◌, subst, true}
use routing_mesh.Prelude.Float.{Float}
use routing_mesh.Sync.Adjust.{Rounds}
use routing_mesh.Matrix.{TdmaMatrix, search_from}
use routing_mesh.Matrix.Sound.{
  IsSound, ListsNodes, SameMesh, SameMesh-IsSound, SameMesh-trans, same_mesh, same_index, own_found,
  SameMesh-sym,
}
use routing_mesh.Matrix.Spanning.{linked, prim}
use routing_mesh.Matrix.Spanning.Tree.{Joined, here, step}
use routing_mesh.Matrix.Spanning.Edges.{edge-linked}
use routing_mesh.Matrix.Wire.{Layout}
use routing_mesh.Events
use routing_mesh.Routing.{Entry, Manager, KernelCall, recompute}
use routing_mesh.Routing.Hops.{Distinct}
use routing_mesh.Routing.Mesh.{snapshot, mesh_routed}
use routing_mesh.Frame.{Processor}
use routing_mesh.Receiver.{World, merge}
use routing_mesh.Receiver.Parts.{Kept, heard_at-Kept, set_quality-Kept, merge-tree}
use routing_mesh.Pdr.Estimate.{pdr_update-SameMesh}
use routing_mesh.Loss.Rounds.{check_node-SameMesh}
use routing_mesh.Matrix.Wire.Sound.{serialize-SameMesh}
use routing_mesh.Node.{
  State, with_world, with_queue, checked, beaconed, counted, recomputed, with_peer, Task, idle,
  taken, viewed, routed, Step, hears, records, rates, merges, counts, writes, checks, beacons,
  sends, adjusts, reads, takes, views, recomputes, finishes, connects, loses, Reach, next,
}
use routing_mesh.Node.Safe.{Reach-IsSafe}

module _ {D F : Float} (proc : Processor D.T) (l : Layout D.T) (me : ℕ) where
  -- since the last merge no node has left the matrix
  pub data Settled : State D F → Type 0 where
    merged :
        {s t : State D F} (now : D.T) (sender : ℕ) (new : TdmaMatrix D.T)
        → Reach proc l me s
        → sender ≢ me
        → ListsNodes new
        → t ≡ with_world s (merge now s.world sender new)
        → Settled t
    later :
        {s t : State D F}
        → Settled s
        → Step proc l me s t
        → s.world.matrix.active ≤ t.world.matrix.active
        → Settled t

  pub Settled-Reach : {s : State D F} → Settled s → Reach proc l me s
  Settled-Reach (merged now sender new r ne lists e) = next r (merges now sender new ne lists e)
  Settled-Reach (later r st n) = next (Settled-Reach r) st

-- The tree is that of a matrix with the same nodes and links.
pub IsCurrent : {D F : Float} → World D F → Type 0
IsCurrent {D} w = (m : TdmaMatrix D.T) × SameMesh m w.matrix × (w.tree ≡ prim m)

module _ {D : Type 0} {m t : TdmaMatrix D} (e : SameMesh m t) where
  linked-same : (u v : ℕ) → linked t u v ≡ linked m u v
  linked-same u v = rw e.matrix refl

  Joined-same : {v : ℕ} → Joined t v → Joined m v
  Joined-same here = here
  Joined-same (step {u} {v} j h lt) =
      step (Joined-same j) (sym (linked-same u v) ∙ h) (rw (sym e.active) lt)

-- what the routing needs of a sound matrix
pub IsSound-Distinct :
    {D : Type 0} (m : TdmaMatrix D) (tree : ℕ → ℕ → ℕ) → IsSound m → Distinct (snapshot m tree)
IsSound-Distinct m tree s = record { positive = s.positive; apart = same_index m s }

module _ {D F : Float} (proc : Processor D.T) (l : Layout D.T) (me : ℕ) where
  by :
      (s t : State D F) {u : State D F}
      → u ≡ t
      → Kept s.world t.world
      → IsCurrent s.world
      → IsCurrent u.world
  unfolding IsCurrent
  by s t e k (m, same, q) =
      subst (λ (x : State D F). IsCurrent x.world) (sym e)
        (m, SameMesh-trans same k.mesh, k.tree ∙ q)

  recomputed-Kept : (s : State D F) (task : Task) → Kept s.world (recomputed s task).world
  unfolding recomputed
  recomputed-Kept s idle = record { mesh = same_mesh _; tree = refl }
  recomputed-Kept s (taken e) = record { mesh = same_mesh _; tree = refl }
  recomputed-Kept s (viewed e v) = record { mesh = same_mesh _; tree = refl }
  recomputed-Kept s (routed e) = record { mesh = same_mesh _; tree = refl }

  -- a step that is no merge, when no node leaves
  Step-Kept :
      {s t : State D F}
      → Step proc l me s t
      → s.world.matrix.active ≤ t.world.matrix.active
      → IsCurrent s.world
      → IsCurrent t.world
  unfolding IsCurrent with_world checked beaconed counted with_peer with_queue
  Step-Kept {s} (merges now sender new ne lists e) n c =
      subst (λ (x : State D F). IsCurrent x.world) (sym e)
        ((merge now s.world sender new).matrix, same_mesh _, merge-tree s.world now sender new)
  Step-Kept {s} (hears round sender e) n c = by s _ e (heard_at-Kept s.world round sender) c
  Step-Kept {s} (records d sender e) n c = by s _ e (record { mesh = same_mesh _; tree = refl }) c
  Step-Kept {s} (rates sender q e) n c = by s _ e (set_quality-Kept s.world sender q) c
  Step-Kept {s} (counts src id e) n c =
      by s _ e
        (record { mesh = pdr_update-SameMesh F s.world.pdr s.world.matrix src id; tree = refl }) c
  Step-Kept {s} (writes packet e) n c = by s _ e (record { mesh = same_mesh _; tree = refl }) c
  Step-Kept {s} (checks round k e) n c =
      by s _ e
        (record {
          mesh = check_node-SameMesh s.world.last_rx round me k s.links s.world.matrix;
          tree = refl;
        })
        c
  Step-Kept {s} (beacons now e) n c =
      by s _ e
        (record {
          mesh =
              serialize-SameMesh D now l s.world.matrix
                (subst (λ (x : State D F). s.world.matrix.active ≤ x.world.matrix.active) e n);
          tree = refl;
        })
        c
  Step-Kept {s} (sends env slot_end i _ _ _ e) n c =
      by s _ e (record { mesh = same_mesh _; tree = refl }) c
  Step-Kept {s} (adjusts r small e) n c = by s _ e (record { mesh = same_mesh _; tree = refl }) c
  Step-Kept {s} (reads now_us memory packet e) n c =
      by s _ e (record { mesh = same_mesh _; tree = refl }) c
  Step-Kept {s} (takes ev q _ p e) n c = by s _ e (record { mesh = same_mesh _; tree = refl }) c
  Step-Kept {s} (views ev _ e) n c = by s _ e (record { mesh = same_mesh _; tree = refl }) c
  Step-Kept {s} (recomputes e) n c = by s _ e (recomputed-Kept s s.task) c
  Step-Kept {s} (finishes ev _ e) n c = by s _ e (record { mesh = same_mesh _; tree = refl }) c
  Step-Kept {s} (connects i fd _ _ e) n c = by s _ e (record { mesh = same_mesh _; tree = refl }) c
  Step-Kept {s} (loses i _ _ e) n c = by s _ e (record { mesh = same_mesh _; tree = refl }) c

  Settled-IsCurrent : {s : State D F} → Settled proc l me s → IsCurrent s.world
  unfolding IsCurrent with_world
  Settled-IsCurrent (merged {s} now sender new r ne lists e) =
      subst (λ (x : State D F). IsCurrent x.world) (sym e)
        ((merge now s.world sender new).matrix, same_mesh _, merge-tree s.world now sender new)
  Settled-IsCurrent (later r st n) = Step-Kept st n (Settled-IsCurrent r)

-- the entry of node d of m, at node i, by an edge of the tree that is a link
abbrev Routed : {D : Type 0} → TdmaMatrix D → (ℕ → ℕ → ℕ) → ℕ → ℕ → Entry → Type 0
Routed m tree i d r =
    (r.valid ≡ true)
    × (r.destination ≡ m.ids d)
    × ((j : ℕ) × (j < m.active) × (tree i j ≡ 1) × (linked m i j ≡ true) × (r.next_hop ≡ m.ids j))

-- from the tree of a matrix m0 that a sound matrix m has the nodes and links of
routes :
    {D E : Type 0} (m0 m : TdmaMatrix D)
    → SameMesh m m0
    → (rm : Manager E KernelCall) → IsSound m
    → (i d : ℕ) → 2 ≤ m.active
    → i < m.active
    → m.ids i ≡ m.my_id
    → rm.my_node_id ≡ m.my_id
    → Joined m i
    → Joined m d
    → d ≢ i
    → Routed m (prim m0) i d ((recompute rm (snapshot m (prim m0))).table d)
routes m0 m e rm sound i d two below at my ji jd ne =
    let sound0 = SameMesh-IsSound m m0 e sound in
    let two0 : 2 ≤ m0.active = rw e.active two in
    let below0 : i < m0.active = rw e.active below in
    let at0 : m0.ids i ≡ m0.my_id = rw (e.ids, e.my_id) at in
    let self =
      ap (search_from m0.ids m0.active 0) (my ∙ sym e.my_id) ∙ own_found m0 sound0 i below0 at0 in
    let (valid, names, (j, lt, edge, hop)) =
      mesh_routed m0 m rm i d (SameMesh-sym e) two0 (IsSound-Distinct m0 (prim m0) sound0) self
        (sound0.no_loop i below0 at0) (Joined-same (SameMesh-sym e) ji)
        (Joined-same (SameMesh-sym e) jd) ne in
    (
      valid,
      names ∙ ap (λ (a : ℕ → ℕ). a d) e.ids,
      (
        j,
        rw e.active at lt,
        edge,
        linked-same (SameMesh-sym e) i j ∙ edge-linked m0 two0 i j edge,
        hop ∙ ap (λ (a : ℕ → ℕ). a j) e.ids,
      ),
    )

module _ {D F : Float} (proc : Processor D.T) (l : Layout D.T) (laws : Rounds D F) (me : ℕ)
    (low : me ≤ 15) where
  -- A node with an identifier up to 15, as `main` starts it, in an interleaving of its threads in which the matrices
  -- of the other nodes come under another number than this node's and list at most 15 nodes, with identifiers from 1
  -- to 15. In a state s after a merge since which no node has left its matrix, it stands in its matrix of at least two
  -- nodes at the index i, and links join it to node 0. The event handler takes its snapshot in s; in any state u in
  -- which it still holds that snapshot, whatever has happened in between, it computes the routes. Then the entry of
  -- every other node of s that links joined to node 0 is valid, names it, and gives as next hop a node that this node
  -- had a link with, by an edge of the spanning tree.
  pub handled_routes :
      (s u : State D F) (e : Events.Event) (i d : ℕ)
      → Settled proc l me s
      → Reach proc l me u
      → u.task ≡ viewed e (snapshot s.world.matrix s.world.tree)
      → let m = s.world.matrix in
        2 ≤ m.active
        → i < m.active
        → m.ids i ≡ me
        → Joined m i
        → Joined m d
        → d ≢ i
        → let r = (recomputed u u.task).handler.routing.table d in
          (r.valid ≡ true)
          × (r.destination ≡ m.ids d)
          × ((j : ℕ) × (j < m.active)
              × (s.world.tree i j ≡ 1)
              × (linked m i j ≡ true)
              × (r.next_hop ≡ m.ids j))
  unfolding recomputed IsCurrent
  handled_routes s u e i d settled reached task two below at ji jd ne =
      let m = s.world.matrix in
      let safe = Reach-IsSafe proc l laws me low (Settled-Reach proc l me settled) in
      let routing_id = (Reach-IsSafe proc l laws me low reached).routing_id in
      let sound = safe.world.matrix in
      let (m0, same, tree) = Settled-IsCurrent proc l me settled in
      let rm = u.handler.routing in
      let route =
        routes m0 m (SameMesh-sym same) rm sound i d two below (at ∙ sym safe.world.own_id)
          (routing_id ∙ sym safe.world.own_id) ji jd ne in
      subst (λ k. Routed m s.world.tree i d ((recomputed u k).handler.routing.table d)) (sym task)
        (subst (λ a. Routed m a i d ((recompute rm (snapshot m a)).table d)) (sym tree) route)
