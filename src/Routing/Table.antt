-- ===== src/Routing/Table.antt =====
-- `routing_manager_recompute` and `routing_manager_lookup`: what the table says after a recomputation.
use routing_mesh.Prelude.{
  ℕ, zero, suc, ◌+◌, ◌≤◌, ◌<◌, ◌≡◌, ◌≢◌, refl, sym, ap, ap₂, ◌∙◌, subst, ◌⊎◌, inl, inr, true, false,
  ◌&&◌, ◌||◌, some, List, [], ◌∷◌, arith, ltb, ◌==◌, if◌then◌else◌, for_up, for_up_inv, Bool-cases,
  ℕ_discrete,
}
use routing_mesh.Matrix.Quality.{IsFirst, search_from-some, search_from-found}
use routing_mesh.Routing.{
  View, RouteNode, Entry, no_entry, Manager, KernelCall, flush, find_node_index, only, primary,
  build_routing_structure, lookup_next_hop, entry_quality, fill, filled, recompute, lookup_from,
  lookup,
}
use routing_mesh.Routing.Reach.{Walk}
use routing_mesh.Routing.Hops.{Distinct, NextHop, via, nowhere, lookup_next_hop-NextHop}

-- the entry at index i
abbrev pub entry : View → ℕ → List RouteNode → ℕ → Entry
entry v my list i =
    let h = lookup_next_hop list (v.ids i) in
    if v.ids i == my || h == 0 then no_entry else record {
      destination = v.ids i;
      next_hop = h;
      quality = entry_quality v my h;
      valid = true;
    }

module _ (v : View) (my : ℕ) (list : List RouteNode) where
  abbrev FilledTo : ℕ → (ℕ → Entry) × List KernelCall → Type 0
  FilledTo k t = (x : ℕ) → t.0 x ≡ (if ltb x k then entry v my list x else no_entry)

  filled_at :
      (k : ℕ) (t : (ℕ → Entry) × List KernelCall)
      → t.0 k ≡ no_entry
      → (fill v my list k t).0 k ≡ entry v my list k
  unfolding fill
  filled_at k t e = elim (Bool-cases (v.ids k == my)) [
    | inl mine ↦ rw (fill, mine) (ground (arith, ap (λ (r : Entry). record r { valid = false }) e))
    | inr not_mine ↦ elim (Bool-cases (lookup_next_hop list (v.ids k) == 0)) [
      | inl zero_hop ↦ rw (not_mine, zero_hop) e
      | inr hop ↦ ground (arith, not_mine, hop)
    ]
  ]

  fill-FilledTo :
      (k : ℕ) (t : (ℕ → Entry) × List KernelCall)
      → FilledTo k t
      → FilledTo (k + 1) (fill v my list k t)
  unfolding fill
  fill-FilledTo k t ih x = elim (ℕ_discrete x k) [
    | yes same ↦
        subst
          (λ z. (fill v my list k t).0 z ≡ (if ltb z (k + 1) then entry v my list z else no_entry))
          (sym same) (filled_at k t (ih k ∙ ground arith) ∙ ground arith)
    | no differ ↦ ground (arith, ih x)
  ]

  filled-FilledTo :
      (calls : List KernelCall)
      → FilledTo v.n (for_up v.n 0 (fill v my list) (λ _. no_entry, calls))
  filled-FilledTo calls =
      for_up_inv FilledTo (fill v my list) v.n 0 v.n (λ _. no_entry, calls) (omega arith)
        (λ k t low high ih. fill-FilledTo k t ih) (λ y. ground arith)

  pub filled-entry :
      (calls : List KernelCall) (x : ℕ)
      → x < v.n
      → (for_up v.n 0 (fill v my list) (λ _. no_entry, calls)).0 x ≡ entry v my list x
  filled-entry calls x lt = filled-FilledTo calls x ∙ ground arith

  -- an entry names its own node, or none
  entry_names :
      (calls : List KernelCall) (x : ℕ)
      → let e = (for_up v.n 0 (fill v my list) (λ _. no_entry, calls)).0 x in
        (e.destination ≡ 0) ⊎ ((x < v.n) × (e.destination ≡ v.ids x))
  entry_names calls x =
      subst (λ (e : Entry). (e.destination ≡ 0) ⊎ ((x < v.n) × (e.destination ≡ v.ids x)))
        (sym (filled-FilledTo calls x)) (ground arith)

lookup_from-none :
    (t : ℕ → Entry) (id k i : ℕ)
    → ((j : ℕ) → i ≤ j → (t j).destination ≢ id)
    → lookup_from t id k i ≡ 0
unfolding lookup_from
lookup_from-none t id zero i h = refl
lookup_from-none t id (suc k) i h =
    ground (arith, lookup_from-none t id k (i + 1) (λ j a. h j (omega arith)), h i)

lookup_from-only :
    (t : ℕ → Entry) (id k i x : ℕ)
    → i ≤ x
    → x < i + k
    → ((j : ℕ) → j ≢ x → (t j).destination ≢ id)
    → lookup_from t id k i ≡ (if (t x).destination == id && (t x).valid then (t x).next_hop else 0)
unfolding lookup_from
lookup_from-only t id zero i x a b h = absurd (omega arith)
lookup_from-only t id (suc k) i x a b h = elim (ℕ_discrete i x) [
  | yes same ↦
      subst
        (λ z.
          lookup_from t id (suc k) i
          ≡ (if (t z).destination == id && (t z).valid then (t z).next_hop else 0))
        same (ground (arith, lookup_from-none t id k (i + 1) (λ j low. h j (omega arith))))
  | no differ ↦ ground (arith, lookup_from-only t id k (i + 1) x, h i differ)
]

-- What the entry for node d says: there is a neighbour from which a walk leads to d without coming back, and the entry
-- is valid and names it with its quality; or there is none, and the entry is not valid.
pub data Route (v : View) (me d : ℕ) (e : Entry) : Type 0 where
  by :
      (i : ℕ)
      → i < v.n
      → v.mst me i ≡ 1
      → Walk v.mst v.n (only me) d i
      → e ≡ record {
        destination = v.ids d;
        next_hop = v.ids i;
        quality = v.link_quality me i;
        valid = true;
      }
      → Route v me d e
  cut :
      e ≡ no_entry
      → ((i : ℕ) → i < v.n → v.mst me i ≡ 1 → ¬ Walk v.mst v.n (only me) d i)
      → Route v me d e

module _ (v : View) (ids : Distinct v) (my me d : ℕ) (self : find_node_index v.ids v.n my ≡ some me)
    (loop : v.mst me me ≡ 0) (dn : d < v.n) (dm : d ≢ me) where
  at_me : IsFirst v.ids v.n 0 my me
  at_me = search_from-some v.ids v.n 0 my me self

  list-me : build_routing_structure v my ≡ for_up v.n 0 (primary v me) []
  unfolding build_routing_structure
  list-me = rw (build_routing_structure, self)

  index-found : (i : ℕ) → i < v.n → find_node_index v.ids v.n (v.ids i) ≡ some i
  index-found i lt =
      let f = search_from-found v.ids v.n 0 (v.ids i) i (omega arith) (omega arith) refl in
      let first = search_from-some v.ids v.n 0 (v.ids i) (f.0) (f.1) in
      f.1 ∙ ap some (ids.apart (f.0) i (omega (arith, first.below)) lt (first.here))

  quality-me : (i : ℕ) → i < v.n → entry_quality v my (v.ids i) ≡ v.link_quality me i
  unfolding entry_quality
  quality-me i lt = let f = index-found i lt in rw (entry_quality, self, f)

  not_mine : v.ids d ≢ my
  not_mine e = dm (ids.apart d me dn (omega (arith, at_me.below)) (e ∙ sym (at_me.here)))

  entry-Route :
      (h : ℕ)
      → NextHop v ids me d dn dm h
      → Route v me d (
          if v.ids d == my || h == 0 then no_entry else record {
            destination = v.ids d;
            next_hop = h;
            quality = entry_quality v my h;
            valid = true;
          })
  entry-Route h (via i lt edge w e) = by i lt edge w (
      live (ground (arith, not_mine, ids.positive i lt))
      ∙ ap₂ (λ a q. record { destination = v.ids d; next_hop = a; quality = q; valid = true }) e
          (ap (entry_quality v my) e ∙ quality-me i lt))
    where
      live :
          (v.ids d == my || h == 0) ≡ false
          → (if v.ids d == my || h == 0 then no_entry else record {
            destination = v.ids d;
            next_hop = h;
            quality = entry_quality v my h;
            valid = true;
          })
            ≡ record {
              destination = v.ids d;
              next_hop = h;
              quality = entry_quality v my h;
              valid = true;
            }
      live f = rw f
  entry-Route h (nowhere e none_here) = cut (ground arith) none_here

  -- A node that finds itself at index me, over active nodes whose identifiers are positive and differ, and a tree
  -- without a loop at me. After routing_manager_recompute, the entry of another node d is valid exactly if a neighbour
  -- of me in the tree reaches d without coming back to me, and then it names d, such a neighbour as next hop, and the
  -- quality of the link to it; otherwise the entry is empty.
  pub recompute-Route :
      {D : Type 0} (rm : Manager D KernelCall)
      → rm.my_node_id ≡ my
      → Route v me d ((recompute rm v).table d)
  unfolding recompute filled
  recompute-Route rm same =
      subst (Route v me d)
        (sym (
          ap
            (λ z.
              (for_up v.n 0 (fill v z (build_routing_structure v z))
                  (λ _. no_entry, flush rm.num_nodes ∷ rm.kernel)).0
                d)
            same
          ∙ ap
              (λ l.
                (for_up v.n 0 (fill v my l) (λ _. no_entry, flush rm.num_nodes ∷ rm.kernel)).0 d)
              list-me
          ∙ filled-entry v my (for_up v.n 0 (primary v me) []) (flush rm.num_nodes ∷ rm.kernel) d
              dn))
        (entry-Route (lookup_next_hop (for_up v.n 0 (primary v me) []) (v.ids d))
          (lookup_next_hop-NextHop v ids me d dn dm loop))

  Route-hop :
      (e : Entry)
      → Route v me d e
      → (if e.destination == v.ids d && e.valid then e.next_hop else 0) ≡ e.next_hop
  Route-hop e (by i lt edge w q) = rw q (ground arith)
  Route-hop e (cut q none_here) = rw q (ground arith)

  -- After a recomputation as above, with num_nodes at least the number of active nodes: a lookup of a node's identifier
  -- gives the next hop of its entry.
  pub lookup-recompute :
      {D : Type 0} (rm : Manager D KernelCall)
      → rm.my_node_id ≡ my
      → v.n ≤ rm.num_nodes
      → lookup (recompute rm v) (v.ids d) ≡ ((recompute rm v).table d).next_hop
  unfolding lookup recompute filled
  lookup-recompute rm same all =
      lookup_from-only (recompute rm v).table (v.ids d) rm.num_nodes 0 d (omega arith) (omega arith)
        others
      ∙ Route-hop ((recompute rm v).table d) (recompute-Route rm same)
    where
      others : (j : ℕ) → j ≢ d → ((recompute rm v).table j).destination ≢ v.ids d
      others j ne e =
          elim (entry_names v rm.my_node_id (build_routing_structure v rm.my_node_id)
            (flush rm.num_nodes ∷ rm.kernel) j) [
              | inl nothing ↦ absurd (omega (arith, ids.positive d dn))
              | inr named ↦ ne (ids.apart j d (named.0) dn (sym (named.1) ∙ e))
            ]

pub recompute-my_node_id :
    {D : Type 0} (rm : Manager D KernelCall) (v : View)
    → (recompute rm v).my_node_id ≡ rm.my_node_id
unfolding recompute
recompute-my_node_id rm v = refl
