-- ===== src/Netlink/Send/Recomputed.antt =====
-- From the spanning tree to the kernel: the routes that a recomputation leaves there.
use routing_mesh.Prelude.{
  ℕ, suc, ◌+◌, ◌≤◌, ◌<◌, ◌≡◌, refl, sym, ap, ◌∙◌, subst, inl, inr, true, Option, none, some, List,
  ◌∷◌, arith, ltb, ◌==◌, if◌then◌else◌, upd, for_up_inv, Bool-cases, ℕ_discrete,
}
use routing_mesh.Routing.{
  View, RouteNode, Entry, no_entry, Manager, KernelCall, flush, add, lookup_next_hop,
  build_routing_structure, fill, filled, recompute,
}
use routing_mesh.Routing.Hops.{Distinct}
use routing_mesh.Routing.Table.{entry, filled-entry}
use routing_mesh.Netlink.{Abi, System, table_main}
use routing_mesh.Netlink.Send.{Kernel, Names, relay_table, perform_all}
use routing_mesh.Netlink.Send.Table.{Serves, Resolves, Hops, run, InByte, to, Shows, perform-Shows}

-- the next hop of an entry, or what was there
abbrev over : Entry → Option ℕ → Option ℕ
over e b = if e.valid then some e.next_hop else b

valid_over : (e : Entry) (b : Option ℕ) → e.valid ≡ true → over e b ≡ some e.next_hop
valid_over e b valid = rw valid refl

module _ {K S : Type 0} (kernel : Kernel K) (abi : Abi) (sys : System S) (names : Names S)
    (ok : Serves kernel) (at : Resolves sys names) (k₀ : K) where
  module _ (v : View) (ids : Distinct v) (bytes : (i : ℕ) → i < v.n → v.ids i < 256) (my : ℕ)
      (list : List RouteNode) (base : Hops) where
    -- the kernel after the first k steps of the loop
    record Filled (k : ℕ) (t : (ℕ → Entry) × List KernelCall) : Type 0 where
      now : Hops
      shows : Shows kernel abi sys names ok at (perform_all kernel abi sys names t.1 k₀) now
      main_at :
          (x : ℕ)
          → x < v.n
          → now.main (v.ids x) ≡ (
              if ltb x k
              then over (entry v my list x) (base.main (v.ids x))
              else base.main (v.ids x))
      relay_at :
          (x : ℕ)
          → x < v.n
          → now.relay (v.ids x) ≡ (
              if ltb x k
              then over (entry v my list x) (base.relay (v.ids x))
              else base.relay (v.ids x))

    -- a step that asks for nothing
    quiet :
        (k : ℕ) (t u : (ℕ → Entry) × List KernelCall)
        → u.1 ≡ t.1
        → entry v my list k ≡ no_entry
        → Filled k t
        → Filled (k + 1) u
    quiet k t u same e f = record {
      now = f.now;
      shows =
          subst
            (λ c. Shows kernel abi sys names ok at (perform_all kernel abi sys names c k₀) f.now)
            (sym same) f.shows;
      main_at = λ x lt. f.main_at x lt ∙ grown x (base.main (v.ids x));
      relay_at = λ x lt. f.relay_at x lt ∙ grown x (base.relay (v.ids x));
    }
      where
        grown :
            (x : ℕ) (b : Option ℕ)
            → (if ltb x k then over (entry v my list x) b else b)
              ≡ (if ltb x (k + 1) then over (entry v my list x) b else b)
        grown x b = elim (ℕ_discrete x k) [
          | yes at_k ↦
              ground (arith, at_k)
              ∙ sym (ap (λ (r : Entry). over r b) (ap (entry v my list) at_k ∙ e))
              ∙ ground (arith, at_k)
          | no differ ↦ ground (arith, differ)
        ]

    -- a step that adds the routes of an entry
    loud :
        (k h : ℕ) (t u : (ℕ → Entry) × List KernelCall)
        → k < v.n
        → u.1 ≡ add (v.ids k) h ∷ t.1
        → (entry v my list k).valid ≡ true
        → (entry v my list k).next_hop ≡ h
        → Filled k t
        → Filled (k + 1) u
    unfolding perform_all run InByte
    loud k h t u low same ev eh f = record {
      now = run (add (v.ids k) h) f.now;
      shows =
          subst
            (λ c.
              Shows kernel abi sys names ok at (perform_all kernel abi sys names c k₀)
                (run (add (v.ids k) h) f.now))
            (sym same)
            (perform-Shows kernel abi sys names ok at (add (v.ids k) h)
              (perform_all kernel abi sys names t.1 k₀) f.now (bytes k low) f.shows);
      main_at = λ x lt. grown x lt f.now.main (base.main (v.ids x)) (f.main_at x lt);
      relay_at = λ x lt. grown x lt f.now.relay (base.relay (v.ids x)) (f.relay_at x lt);
    }
      where
        here : (g : ℕ → Option ℕ) → upd g (v.ids k) (some h) (v.ids k) ≡ some h
        here g = ground arith

        grown :
            (x : ℕ)
            → x < v.n
            → (g : ℕ → Option ℕ) (b : Option ℕ)
            → g (v.ids x) ≡ (if ltb x k then over (entry v my list x) b else b)
            → upd g (v.ids k) (some h) (v.ids x)
              ≡ (if ltb x (k + 1) then over (entry v my list x) b else b)
        grown x lt g b e = elim (ℕ_discrete x k) [
          | yes at_k ↦
              ap (upd g (v.ids k) (some h)) (ap v.ids at_k)
              ∙ here g
              ∙ sym (
                  ap (λ (r : Entry). over r b) (ap (entry v my list) at_k)
                  ∙ valid_over (entry v my list k) b ev
                  ∙ ap some eh)
              ∙ ground (arith, at_k)
          | no differ ↦
              ground (arith, e, λ (z : v.ids x ≡ v.ids k). differ (ids.apart x k lt low z))
        ]

    fill-Filled :
        (k : ℕ) (t : (ℕ → Entry) × List KernelCall)
        → k < v.n
        → Filled k t
        → Filled (k + 1) (fill v my list k t)
    unfolding fill
    fill-Filled k t low f = elim (Bool-cases (v.ids k == my)) [
      | inl mine ↦ quiet k t (fill v my list k t) (rw mine refl) (rw mine refl) f
      | inr not_mine ↦ elim (Bool-cases (lookup_next_hop list (v.ids k) == 0)) [
        | inl zero_hop ↦
            quiet k t (fill v my list k t) (rw (not_mine, zero_hop) refl)
              (rw (not_mine, zero_hop) refl) f
        | inr hop ↦
            loud k (lookup_next_hop list (v.ids k)) t (fill v my list k t) low
              (rw (not_mine, hop) refl) (rw (not_mine, hop) refl) (rw (not_mine, hop) refl) f
      ]
    ]

  -- the kernel behind the loop of a recomputation
  recomputed :
      {D : Type 0} (rm : Manager D KernelCall) (v : View) (s : Hops) (ids : Distinct v)
      (bytes : (i : ℕ) → i < v.n → v.ids i < 256)
      → rm.num_nodes < 255
      → Shows kernel abi sys names ok at (perform_all kernel abi sys names rm.kernel k₀) s
      → Filled v ids bytes rm.my_node_id
          (build_routing_structure v rm.my_node_id)
          (run (flush rm.num_nodes) s)
          v.n
          (filled v rm.my_node_id (flush rm.num_nodes ∷ rm.kernel))
  unfolding filled run perform_all InByte
  recomputed rm v s ids bytes few shows =
      let my = rm.my_node_id in
      let list = build_routing_structure v my in
      let base = run (flush rm.num_nodes) s in
      for_up_inv (Filled v ids bytes my list base) (fill v my list) v.n 0 v.n
        (λ _. no_entry, flush rm.num_nodes ∷ rm.kernel) (omega arith)
        (λ k t lo hi i. fill-Filled v ids bytes my list base k t (omega arith) i)
        (record {
          now = base;
          shows =
              perform-Shows kernel abi sys names ok at (flush rm.num_nodes)
                (perform_all kernel abi sys names rm.kernel k₀) s few shows;
          main_at = λ y lt. ground arith;
          relay_at = λ y lt. ground arith;
        })

  -- the kernel's routes are known again
  pub recompute-Shows :
      {D : Type 0} (rm : Manager D KernelCall) (v : View) (s : Hops)
      → Distinct v
      → ((i : ℕ) → i < v.n → v.ids i < 256)
      → rm.num_nodes < 255
      → Shows kernel abi sys names ok at (perform_all kernel abi sys names rm.kernel k₀) s
      → (now : Hops) × Shows kernel abi sys names ok at
          (perform_all kernel abi sys names (recompute rm v).kernel k₀)
          now
  unfolding recompute
  recompute-Shows rm v s ids bytes few shows =
      let f = recomputed rm v s ids bytes few shows in (f.now, f.shows)

  -- A kernel that serves requests as rtnetlink documents, with the routes of the nodes by the next hops s after the calls of
  -- a manager whose num_nodes is below 255. The identifiers of the active nodes are positive, differ and are bytes. After a recomputation and its calls,
  -- an active node whose identifier is at most num_nodes has in the main table the route by the next hop of its entry on the
  -- mesh interface, and in table 200 that on the wireless interface, if the entry is valid; otherwise it has no route.
  pub recompute-routes :
      {D : Type 0} (rm : Manager D KernelCall) (v : View) (s : Hops) (x : ℕ)
      → Distinct v
      → ((i : ℕ) → i < v.n → v.ids i < 256)
      → rm.num_nodes < 255
      → Shows kernel abi sys names ok at (perform_all kernel abi sys names rm.kernel k₀) s
      → x < v.n
      → v.ids x ≤ rm.num_nodes
      → let after = perform_all kernel abi sys names (recompute rm v).kernel k₀ in
        let e = (recompute rm v).table x in
        let hop = if e.valid then some e.next_hop else none in
        (ok.route after table_main (at.mesh_ip (v.ids x)) ≡ to at.mesh_ip (suc at.mesh_index) hop)
        × (ok.route after relay_table (at.mesh_ip (v.ids x)) ≡ to at.phy_ip (suc at.phy_index) hop)
  unfolding recompute filled run perform_all InByte
  recompute-routes rm v s x ids bytes few shows low served =
      let my = rm.my_node_id in
      let list = build_routing_structure v my in
      let calls = flush rm.num_nodes ∷ rm.kernel in
      let base = run (flush rm.num_nodes) s in
      let f = recomputed rm v s ids bytes few shows in
      let e = filled-entry v my list calls x low in
      let landed : (b : Option ℕ)
          → b ≡ none
          → (if ltb x v.n then over (entry v my list x) b else b)
            ≡ over ((filled v my calls).0 x) none =
        (λ b nothing.
          ground (arith, low)
          ∙ ap (over (entry v my list x)) nothing
          ∙ ap (λ (r : Entry). over r none) (sym e)) in
      (
        f.shows.in_main (v.ids x) (bytes x low)
            ∙ ap (to at.mesh_ip (suc at.mesh_index)) (
                f.main_at x low
                ∙ landed (base.main (v.ids x)) (ground (arith, ids.positive x low))),
        f.shows.in_relay (v.ids x) (bytes x low)
            ∙ ap (to at.phy_ip (suc at.phy_index)) (f.relay_at x low ∙ landed none refl),
      )
