-- ===== src/Routing/Tests.antt =====
-- The routing theorems on a row of four nodes, seen from the second.
use routing_mesh.Prelude.{ℕ, ◌+◌, ◌≡◌, ◌↔◌, refl, [], true, some, arith, ◌==◌, if◌then◌else◌}
use routing_mesh.Matrix.{search_from}
use routing_mesh.Routing.{
  View, Manager, KernelCall, no_entry, only, reachable, find_node_index, recompute,
}
use routing_mesh.Routing.Reach.{Walk, reachable_iff}
use routing_mesh.Routing.Hops.{Distinct}
use routing_mesh.Routing.Table.{Route, recompute-Route}

abbrev pub row : View
row = record {
  mst = λ i j. if i + 1 == j then 1 else if j + 1 == i then 1 else 0;
  link_quality = λ i j. 80;
  ids = λ i. i + 1;
  n = 4;
}

pub row-Distinct : Distinct row
row-Distinct = record { positive = λ i h. omega arith; apart = λ i j a b e. omega arith }

abbrev pub manager : Manager ℕ KernelCall
manager = record {
  my_node_id = 2;
  num_nodes = 5;
  table = λ _. no_entry;
  link_stats = λ _. record {
    packets_received = 0;
    packets_expected = 0;
    consecutive_losses = 0;
    last_seen = 0;
  };
  needs_recompute = true;
  recompute_count = 0;
  kernel = [];
}

me : find_node_index row.ids 4 2 ≡ some 1
unfolding search_from
me = refl

reachable_iff_example : (reachable row.mst 4 1 2 3 ≡ true) ↔ Walk row.mst 4 (only 1) 3 2
reachable_iff_example = reachable_iff row.mst 4 1 2 3 (omega arith) (λ e. absurd (omega arith))

recompute-Route_example : Route row 1 3 ((recompute manager row).table 3)
recompute-Route_example =
    recompute-Route row row-Distinct 2 1 3 me refl (omega arith) (λ e. absurd (omega arith)) manager
      refl
