-- ===== src/Routing.antt =====
-- routing.c: the routing table that a node computes from the spanning tree. What it asks of
-- the kernel is a list of calls, which Netlink.Send performs.
pub mod Reach
pub mod Hops
pub mod Table
pub mod Mesh
pub mod Learned
pub mod Tests
use routing_mesh.Prelude.{
  ℕ, zero, suc, ◌+◌, ◌%◌, ◌^◌, Bool, true, false, ◌&&◌, ◌||◌, not, Option, none, some, List, [],
  ◌∷◌, ◌==◌, if◌then◌else◌, upd, for_up, has,
}
use routing_mesh.Matrix.{search_from}

-- `find_node_index`, with `none` for -1
abbrev pub find_node_index : (ℕ → ℕ) → ℕ → ℕ → Option ℕ
find_node_index ids n id = search_from ids n 0 id

-- the loop of `is_reachable_via_mst`, whose recursive call is a parameter; both give the result and visited[]
pub scan : (ℕ → (ℕ → Bool) → Bool × (ℕ → Bool)) → (ℕ → ℕ) → ℕ → ℕ → (ℕ → Bool) → Bool × (ℕ → Bool)
scan call row zero i visited = (false, visited)
scan call row (suc k) i visited = elim (not (row i == 0) && not (visited i)) [
  | false ↦ scan call row k (i + 1) visited
  | true ↦ elim ((call i visited).0) [
    | true ↦ call i visited
    | false ↦ scan call row k (i + 1) ((call i visited).1)
  ]
]

-- `is_reachable_via_mst`, on fuel
pub search_mst : (ℕ → ℕ → ℕ) → ℕ → ℕ → ℕ → ℕ → (ℕ → Bool) → Bool × (ℕ → Bool)
search_mst mst n target zero i visited = (false, visited)
search_mst mst n target (suc fuel) i visited = elim (i == target) [
  | true ↦ (true, visited)
  | false ↦ scan (search_mst mst n target fuel) (mst i) n 0 (upd visited i true)
]

-- visited[] when `build_routing_structure` starts a search
abbrev pub only : ℕ → ℕ → Bool
only me x = x == me

-- `is_reachable_via_mst` as it is called there: a search marks a node before each call, so n + 1 calls are deep enough
pub reachable : (ℕ → ℕ → ℕ) → ℕ → ℕ → ℕ → ℕ → Bool
reachable mst n me i j = (search_mst mst n j (n + 1) i (only me)).0

-- `route_node_t` of the primary list, with the identifiers of its secondary list
pub record RouteNode : Type 0 where
  pub node_id : ℕ
  pub quality : ℕ
  pub reachable_ids : List ℕ

-- what `build_routing_structure` reads
pub record View : Type 0 where
  pub mst : ℕ → ℕ → ℕ
  pub link_quality : ℕ → ℕ → ℕ
  pub ids : ℕ → ℕ
  pub n : ℕ

module _ (v : View) (me : ℕ) where
  pub secondary : ℕ → ℕ → List ℕ → List ℕ
  secondary i j list =
      if j == me || j == i
      then list
      else (if reachable v.mst v.n me i j then v.ids j ∷ list else list)

  pub primary : ℕ → List RouteNode → List RouteNode
  primary i list =
      if v.mst me i == 1
      then record {
        node_id = v.ids i;
        quality = v.link_quality me i;
        reachable_ids = for_up v.n 0 (secondary i) [];
      }
        ∷ list
      else list

pub build_routing_structure : View → ℕ → List RouteNode
build_routing_structure v my_node_id = elim (find_node_index v.ids v.n my_node_id) [
  | none ↦ []
  | some me ↦ for_up v.n 0 (primary v me) []
]

-- the first loop of `lookup_next_hop`
pub via_secondary : ℕ → List RouteNode → Option ℕ
via_secondary d [] = none
via_secondary d (p ∷ ps) = if has d p.reachable_ids then some p.node_id else via_secondary d ps

-- its second loop
pub via_primary : ℕ → List RouteNode → Option ℕ
via_primary d [] = none
via_primary d (p ∷ ps) = if p.node_id == d then some p.node_id else via_primary d ps

-- the first of two answers, or 0
pub first_of_two : Option ℕ → Option ℕ → ℕ
first_of_two (some h) b = h
first_of_two none (some h) = h
first_of_two none none = 0

-- `lookup_next_hop`
pub lookup_next_hop : List RouteNode → ℕ → ℕ
lookup_next_hop list d = first_of_two (via_secondary d list) (via_primary d list)

-- `routing_entry_t`; its field `hops` is never written
pub record Entry : Type 0 where
  pub destination : ℕ
  pub next_hop : ℕ
  pub quality : ℕ
  pub valid : Bool

abbrev pub no_entry : Entry
no_entry = record { destination = 0; next_hop = 0; quality = 0; valid = false }

-- `link_stats_t`, over the type of the times
pub record LinkStats (D : Type 0) : Type 0 where
  pub packets_received : ℕ
  pub packets_expected : ℕ
  pub consecutive_losses : ℕ
  pub last_seen : D

-- `routing_manager_t`, with the calls that changed the kernel's routes, the latest first
pub record Manager (D K : Type 0) : Type 0 where
  pub my_node_id : ℕ
  pub num_nodes : ℕ
  pub table : ℕ → Entry
  pub link_stats : ℕ → LinkStats D
  pub needs_recompute : Bool
  pub recompute_count : ℕ
  pub kernel : List K

-- what the netlink layer is asked to do: `flush` of n nodes; `add` of the /32 routes to a node by a next hop
pub data KernelCall : Type 0 where
  flush : ℕ → KernelCall
  add : ℕ → ℕ → KernelCall

-- `routing_manager_update_link_stats` at the time now
pub update_link_stats : {D K : Type 0} → D → Manager D K → ℕ → Bool → Manager D K
update_link_stats now rm id received =
    let s = rm.link_stats id in
    record rm {
      link_stats = upd rm.link_stats id (
          if received
          then record s {
            packets_received = (s.packets_received + 1) % 2 ^ 32;
            packets_expected = (s.packets_expected + 1) % 2 ^ 32;
            consecutive_losses = 0;
            last_seen = now;
          }
          else record s {
            packets_expected = (s.packets_expected + 1) % 2 ^ 32;
            consecutive_losses = (s.consecutive_losses + 1) % 2 ^ 32;
          });
    }

-- the quality of an entry: that of the link to the next hop, where both indices are found
pub entry_quality : View → ℕ → ℕ → ℕ
entry_quality v my_node_id next_hop = elim (find_node_index v.ids v.n my_node_id) [
  | none ↦ 0
  | some me ↦ elim (find_node_index v.ids v.n next_hop) [ none ↦ 0 | some h ↦ v.link_quality me h ]
]

-- the body of the loop of `routing_manager_recompute`, on the table and the kernel's calls
unfoldable pub fill :
    View → ℕ → List RouteNode → ℕ → (ℕ → Entry) × List KernelCall → (ℕ → Entry) × List KernelCall
fill v my list i (table, calls) =
    let d = v.ids i in
    let h = lookup_next_hop list d in
    if d == my
    then (upd table i (record (table i) { valid = false }), calls)
    else (if h == 0 then (table, calls) else (
      upd table i
          (record { destination = d; next_hop = h; quality = entry_quality v my h; valid = true }),
      add d h ∷ calls,
    ))

unfoldable pub filled : View → ℕ → List KernelCall → (ℕ → Entry) × List KernelCall
filled v my calls = for_up v.n 0 (fill v my (build_routing_structure v my)) (λ _. no_entry, calls)

-- `routing_manager_recompute`
unfoldable pub recompute : {D : Type 0} → Manager D KernelCall → View → Manager D KernelCall
recompute rm v =
    let r = filled v rm.my_node_id (flush rm.num_nodes ∷ rm.kernel) in
    record rm {
      table = r.0;
      kernel = r.1;
      recompute_count = (rm.recompute_count + 1) % 2 ^ 32;
      needs_recompute = false;
    }

-- the loop of `routing_manager_lookup`
pub lookup_from : (ℕ → Entry) → ℕ → ℕ → ℕ → ℕ
lookup_from table d zero i = 0
lookup_from table d (suc k) i =
    let rest = lookup_from table d k (i + 1) in
    if (table i).destination == d && (table i).valid then (table i).next_hop else rest

pub lookup : {D K : Type 0} → Manager D K → ℕ → ℕ
lookup rm d = lookup_from rm.table d rm.num_nodes 0

-- `routing_manager_mark_dirty`
pub mark_dirty : {D K : Type 0} → Manager D K → Manager D K
mark_dirty rm = record rm { needs_recompute = true }
