-- ===== src/Node/Kernel.antt =====
-- From a running node to the kernel: the routes there when the event handler has taken an event.
use routing_mesh.Prelude.{
  ℕ, suc, refl, arith, ◌≤◌, ◌<◌, ◌≡◌, ◌≢◌, ◌⊎◌, inl, inr, sym, ap, ◌∙◌, subst, true, some, none,
  if◌then◌else◌,
}
use routing_mesh.Prelude.Float.{Float}
use routing_mesh.Sync.Adjust.{Rounds}
use routing_mesh.Matrix.{TdmaMatrix}
use routing_mesh.Matrix.Spanning.{linked}
use routing_mesh.Matrix.Spanning.Tree.{Joined, here, step}
use routing_mesh.Matrix.Wire.{Layout}
use routing_mesh.Events
use routing_mesh.Events.Handler.{finish-routing}
use routing_mesh.Routing.{View, Entry, Manager, KernelCall, recompute}
use routing_mesh.Routing.Mesh.{snapshot}
use routing_mesh.Routing.Hops.{Distinct}
use routing_mesh.Matrix.Sound.{IsSound}
use routing_mesh.Frame.{Processor}
use routing_mesh.Netlink.{Abi, System, table_main}
use routing_mesh.Netlink.Send.{Kernel, Names, relay_table, perform_all}
use routing_mesh.Netlink.Send.Table.{Serves, Resolves, Hops, Shows, to}
use routing_mesh.Netlink.Send.Recomputed.{recompute-routes, recompute-Shows}
use routing_mesh.Sync.{Sync}
use routing_mesh.Start.{Boot, Started, started, routing_manager_create}
use routing_mesh.Start.Ran.{IsNode, main-IsNode}
use routing_mesh.Node.{
  State, first_state, slot_start, with_world, with_queue, checked, beaconed, counted, recomputed,
  with_peer, Task, idle, taken, viewed, routed, Step, hears, records, rates, merges, counts, writes,
  checks, beacons, sends, adjusts, reads, takes, views, recomputes, finishes, connects, loses,
  Reach, start, next,
}
use routing_mesh.Node.Safe.{Reach-IsSafe}
use routing_mesh.Node.Routes.{Settled, Settled-Reach, IsSound-Distinct, handled_routes}

to-hop :
    (ip : ℕ → ℕ) (o h : ℕ) (r : Entry)
    → r.valid ≡ true
    → r.next_hop ≡ h
    → to ip o (if r.valid then some r.next_hop else none) ≡ some (ip h, o)
unfolding to
to-hop ip o h r valid hop = rw (valid, hop) refl

joined-below : {D : Type 0} (m : TdmaMatrix D) (d : ℕ) → 2 ≤ m.active → Joined m d → d < m.active
joined-below m d two here = omega arith
joined-below m d two (step j e lt) = lt

-- what the handler sees is the snapshot of a matrix that is sound
Seen : Task → Type 0
Seen (viewed e v) = Distinct v × ((i : ℕ) → i < v.n → v.ids i < 256)
Seen idle = Unit
Seen (taken e) = Unit
Seen (routed e) = Unit

module _ {D F : Float} where
  recomputed-routing :
      (s : State D F) (task : Task)
      → ((recomputed s task).handler.routing ≡ s.handler.routing)
        ⊎ ((e : Events.Event) × (v : View) × (task ≡ viewed e v)
            × ((recomputed s task).handler.routing ≡ recompute s.handler.routing v))
  unfolding recomputed
  recomputed-routing s idle = inl refl
  recomputed-routing s (taken e) = inl refl
  recomputed-routing s (routed e) = inl refl
  recomputed-routing s (viewed e v) = inr (e, v, refl, refl)

module _ {D F : Float} (proc : Processor D.T) (l : Layout D.T) (me : ℕ) where
  abbrev routing_of : State D F → Manager D.T KernelCall
  routing_of t = t.handler.routing

  -- only the event handler computes routes
  Step-routing :
      {s t : State D F}
      → Step proc l me s t
      → (t.handler.routing ≡ s.handler.routing) ⊎ (t ≡ recomputed s s.task)
  unfolding with_world with_queue checked beaconed slot_start counted with_peer
  Step-routing (hears round sender e) = inl (ap routing_of e)
  Step-routing (records d sender e) = inl (ap routing_of e)
  Step-routing (rates sender q e) = inl (ap routing_of e)
  Step-routing (merges now sender new ne lists e) = inl (ap routing_of e)
  Step-routing (counts src id e) = inl (ap routing_of e)
  Step-routing (writes packet e) = inl (ap routing_of e)
  Step-routing (checks round k e) = inl (ap routing_of e)
  Step-routing (beacons now e) = inl (ap routing_of e)
  Step-routing (sends env slot_end i a b c e) = inl (ap routing_of e)
  Step-routing (adjusts r small e) = inl (ap routing_of e)
  Step-routing (reads now_us memory packet e) = inl (ap routing_of e)
  Step-routing (takes ev q i p e) = inl (ap routing_of e)
  Step-routing (views ev p e) = inl (ap routing_of e)
  Step-routing (recomputes e) = inr e
  Step-routing {s} (finishes ev p e) =
      inl (ap routing_of e ∙ finish-routing s.handler ev.type ev.node_id)
  Step-routing (connects i fd a b e) = inl (ap routing_of e)
  Step-routing (loses i a b e) = inl (ap routing_of e)

  recomputed-Seen : (s : State D F) (task : Task) → Seen s.task → Seen (recomputed s task).task
  unfolding recomputed Seen
  recomputed-Seen s idle p = p
  recomputed-Seen s (taken e) p = p
  recomputed-Seen s (routed e) p = p
  recomputed-Seen s (viewed e v) p = tt

  Step-Seen :
      {s t : State D F} → Step proc l me s t → IsSound s.world.matrix → Seen s.task → Seen t.task
  unfolding with_world with_queue checked beaconed slot_start counted with_peer Seen
  Step-Seen (hears round sender e) m p = rw e p
  Step-Seen (records d sender e) m p = rw e p
  Step-Seen (rates sender q e) m p = rw e p
  Step-Seen (merges now sender new ne lists e) m p = rw e p
  Step-Seen (counts src id e) m p = rw e p
  Step-Seen (writes packet e) m p = rw e p
  Step-Seen (checks round k e) m p = rw e p
  Step-Seen (beacons now e) m p = rw e p
  Step-Seen (sends env slot_end i a b c e) m p = rw e p
  Step-Seen (adjusts r small e) m p = rw e p
  Step-Seen (reads now_us memory packet e) m p = rw e p
  Step-Seen (takes ev q i p e) m _ = rw e tt
  Step-Seen {s} (views ev p e) m _ =
      rw e (IsSound-Distinct s.world.matrix s.world.tree m, λ i lt. omega (arith, m.within i lt))
  Step-Seen {s} (recomputes e) m p = rw e (recomputed-Seen s s.task p)
  Step-Seen (finishes ev p e) m _ = rw e tt
  Step-Seen (connects i fd a b e) m p = rw e p
  Step-Seen (loses i a b e) m p = rw e p

recompute-num_nodes :
    {D : Type 0} (rm : Manager D KernelCall) (v : View) → (recompute rm v).num_nodes ≡ rm.num_nodes
unfolding recompute
recompute-num_nodes rm v = refl

module _ {K S : Type 0} (kernel : Kernel K) (abi : Abi) (sys : System S) (names : Names S)
    (ok : Serves kernel) (at : Resolves sys names) (k₀ : K) where
  -- the kernel has the routes of the nodes by some next hops, and no others
  record Answered {D : Type 0} (rm : Manager D KernelCall) : Type 0 where
    few : rm.num_nodes < 255
    shown : Hops
    shows : Shows kernel abi sys names ok at (perform_all kernel abi sys names rm.kernel k₀) shown

  module _ {D F : Float} (proc : Processor D.T) (l : Layout D.T) (laws : Rounds D F) (me : ℕ)
      (low : me ≤ 15) where
    recomputed-Answered :
        (s : State D F) (task : Task)
        → Seen task
        → Answered s.handler.routing
        → Answered (recomputed s task).handler.routing
    unfolding recomputed Seen
    recomputed-Answered s idle seen p = p
    recomputed-Answered s (taken e) seen p = p
    recomputed-Answered s (routed e) seen p = p
    recomputed-Answered s (viewed e v) (ids, bytes) p =
        let rm = s.handler.routing in
        let (now, shows) =
          recompute-Shows kernel abi sys names ok at k₀ rm v p.shown ids bytes p.few p.shows in
        record { few = omega (arith, recompute-num_nodes rm v, p.few); shown = now; shows = shows }

    Reach-Seen : {s : State D F} → Reach proc l me s → Seen s.task
    unfolding first_state Seen
    Reach-Seen (start s0 now_us now boot a b opened n empty runs_n e) = tt
    Reach-Seen (next r st) =
        Step-Seen proc l me st (Reach-IsSafe proc l laws me low r).world.matrix (Reach-Seen r)

    first-Answered :
        (s0 : Sync F.T) (now_us : ℕ) (now : D.T) (boot : Boot) (n : Started D F) (before : Hops)
        → Shows kernel abi sys names ok at k₀ before
        → IsNode D F s0 now_us now boot n
        → Answered (first_state n).handler.routing
    unfolding first_state started routing_manager_create perform_all
    first-Answered s0 now_us now boot n before shows is =
        subst (λ (x : Started D F). Answered (first_state x).handler.routing) (sym is.fields)
          (record { few = omega (arith, is.num_high); shown = before; shows = shows })

    Reach-Answered :
        {s : State D F} (before : Hops)
        → Shows kernel abi sys names ok at k₀ before
        → Reach proc l me s
        → Answered s.handler.routing
    Reach-Answered before shows (start s0 now_us now boot a b opened n empty runs_n e) =
        first-Answered s0 now_us now boot n before shows
          (main-IsNode D F s0 now_us now boot 3 a b opened n runs_n)
    Reach-Answered before shows (next {s} r st) =
        let p = Reach-Answered before shows r in
        elim (Step-routing proc l me st) [
          | inl same ↦ subst Answered (sym same) p
          | inr same ↦
              subst (λ (t : State D F). Answered t.handler.routing) (sym same)
                (recomputed-Answered s s.task (Reach-Seen r) p)
        ]

    -- A kernel that serves requests as rtnetlink documents, and which has at the start the routes of the nodes by the
    -- next hops `before`. A node with an identifier up to 15, as `main` starts it, in an interleaving of its threads
    -- in which the matrices of the other nodes come under another number than this node's and list at most 15 nodes,
    -- with identifiers from 1 to 15. In a state s after a merge since which no node has left its matrix, it stands in
    -- its matrix of at least two nodes at the index i, and links join it to node 0. The event handler takes its
    -- snapshot in s; in any state u in which it still holds that snapshot, whatever has happened in between, it
    -- computes the routes. Then the kernel has routes to every other node of s that links joined to node 0 and whose
    -- identifier is at most num_nodes: one by a node that this node had a link with, on the mesh interface in the main
    -- table, and one by the same node on the wireless interface in table 200.
    pub handled_kernel :
        (s u : State D F) (e : Events.Event) (i d : ℕ) (before : Hops)
        → Shows kernel abi sys names ok at k₀ before
        → Settled proc l me s
        → Reach proc l me u
        → u.task ≡ viewed e (snapshot s.world.matrix s.world.tree)
        → let m = s.world.matrix in
          let rm = u.handler.routing in
          let after =
            perform_all kernel abi sys names (recomputed u u.task).handler.routing.kernel k₀ in
          2 ≤ m.active
          → i < m.active
          → m.ids i ≡ me
          → Joined m i
          → Joined m d
          → d ≢ i
          → m.ids d ≤ rm.num_nodes
          → (j : ℕ) × (j < m.active)
            × (linked m i j ≡ true)
            × (ok.route after table_main (at.mesh_ip (m.ids d))
                ≡ some (at.mesh_ip (m.ids j), suc at.mesh_index))
            × (ok.route after relay_table (at.mesh_ip (m.ids d))
                ≡ some (at.phy_ip (m.ids j), suc at.phy_index))
    unfolding recomputed
    handled_kernel s u e i d before shows settled reached task two below mine ji jd ne served =
        let m = s.world.matrix in
        let safe = Reach-IsSafe proc l laws me low (Settled-Reach proc l me settled) in
        let p = Reach-Answered before shows reached in
        let v = snapshot m s.world.tree in
        let (valid, named, (j, lt, edge, link, hop)) =
          handled_routes proc l laws me low s u e i d settled reached task two below mine ji jd
            ne in
        let (main, relay) =
          recompute-routes kernel abi sys names ok at k₀ u.handler.routing v p.shown d
            (IsSound-Distinct m s.world.tree safe.world.matrix)
            (λ x lt. omega (arith, safe.world.matrix.within x lt)) p.few p.shows
            (joined-below m d two jd) served in
        let same : (recomputed u u.task).handler.routing ≡ recompute u.handler.routing v =
          ap (λ k. (recomputed u k).handler.routing) task in
        let routing = (recomputed u u.task).handler.routing in
        let at_hop = λ (ip : ℕ → ℕ) (o : ℕ).
          ap
            (λ (x : Manager D.T KernelCall).
              to ip o (if (x.table d).valid then some (x.table d).next_hop else none))
            (sym same)
          ∙ to-hop ip o (m.ids j) (routing.table d) valid hop in
        (
          j,
          lt,
          link,
          ap
                (λ (x : Manager D.T KernelCall).
                  ok.route (perform_all kernel abi sys names x.kernel k₀) table_main
                    (at.mesh_ip (m.ids d)))
                same
              ∙ main
              ∙ at_hop at.mesh_ip (suc at.mesh_index),
          ap
                (λ (x : Manager D.T KernelCall).
                  ok.route (perform_all kernel abi sys names x.kernel k₀) relay_table
                    (at.mesh_ip (m.ids d)))
                same
              ∙ relay
              ∙ at_hop at.phy_ip (suc at.phy_index),
        )
