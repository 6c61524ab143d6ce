-- ===== src/Node/Tests.antt =====
-- Node 2 of 3 hears node 1, and the event handler takes the event.
use routing_mesh.Prelude.{ℕ, suc, some, none, ◌<◌, ◌≡◌, refl, ap, ◌∙◌, true, [], arith}
use routing_mesh.Prelude.Int.{pos}
use routing_mesh.Sync.Tests.{fixed, fixed-Rounds, blank}
use routing_mesh.Matrix.{TdmaMatrix}
use routing_mesh.Matrix.Tests.{one_byte}
use routing_mesh.Matrix.Sound.{ListsNodes}
use routing_mesh.Matrix.Spanning.{linked}
use routing_mesh.Matrix.Spanning.Tree.{Joined, here, step}
use routing_mesh.Matrix.Update.Tests.{alone, pair, pair_lem}
use routing_mesh.Events
use routing_mesh.Events.{Event, topology_changed, create, push, pop, pop_from}
use routing_mesh.Routing.{View}
use routing_mesh.Routing.Mesh.{snapshot}
use routing_mesh.Frame.Tests.{little_endian}
use routing_mesh.Receiver.{merge}
use routing_mesh.Receiver.Parts.{merge-matrix, merge-events}
use routing_mesh.Start.{started, routing_manager_create}
use routing_mesh.Start.Tests.{boot, second, main-second}
use routing_mesh.Netlink.{table_main}
use routing_mesh.Netlink.Tests.{linux}
use routing_mesh.Netlink.Send.{relay_table, perform_all}
use routing_mesh.Netlink.Send.Tests.{
  kernel, addresses, names, kernel-Serves, names-Resolves, empty, empty-Shows,
}
use routing_mesh.Node.{
  State, first_state, with_world, recomputed, idle, taken, viewed, takes, views, Reach, start, next,
}
use routing_mesh.Node.Safe.{IsSafe, Reach-IsSafe}
use routing_mesh.Node.Routes.{Settled, Settled-Reach, merged, handled_routes}
use routing_mesh.Node.Kernel.{handled_kernel}

begun : Reach little_endian one_byte 2 (first_state second)
unfolding started
begun = start blank 100 7 boot (pos 2) (pos 3) [] second refl main-second refl

abbrev heard_one : State fixed fixed
heard_one = with_world (first_state second) (merge 55000 (first_state second).world 1 alone)

alone-ListsNodes : ListsNodes alone
unfolding ListsNodes
alone-ListsNodes = (omega arith, λ id listed. (ground (arith, listed), ground (arith, listed)))

heard_one-Settled : Settled little_endian one_byte 2 heard_one
heard_one-Settled =
    merged 55000 1 alone begun (λ e. absurd (omega (arith, e))) alone-ListsNodes refl

heard_one-matrix : heard_one.world.matrix ≡ pair
unfolding with_world first_state started
heard_one-matrix = merge-matrix (first_state second).world 55000 1 alone

abbrev event : Event
event = record { type = topology_changed; node_id = 1 }

linked_pair : linked heard_one.world.matrix 0 1 ≡ true
linked_pair = ap (λ (m : TdmaMatrix ℕ). linked m 0 1) heard_one-matrix ∙ pair_lem.2

two_nodes : heard_one.world.matrix.active ≡ 2
two_nodes = ap (λ (m : TdmaMatrix ℕ). m.active) heard_one-matrix ∙ pair_lem.0

two_joined : Joined heard_one.world.matrix 1
two_joined = step here linked_pair (omega (arith, two_nodes))

heard_one-first : heard_one.world.matrix.ids 0 ≡ 1
heard_one-first = ap (λ (m : TdmaMatrix ℕ). m.ids 0) heard_one-matrix ∙ pair_lem.3

heard_one-second : heard_one.world.matrix.ids 1 ≡ 2
heard_one-second = ap (λ (m : TdmaMatrix ℕ). m.ids 1) heard_one-matrix ∙ pair_lem.1

-- the handler takes the event, and then the snapshot
abbrev took : State fixed fixed
took = record heard_one { world = record heard_one.world { events = create }; task = taken event }

abbrev view : View
view = snapshot heard_one.world.matrix heard_one.world.tree

abbrev looked : State fixed fixed
looked = record took { task = viewed event view }

popped : pop heard_one.world.events ≡ Events.event event create
unfolding with_world first_state started push pop pop_from
popped = ap pop (merge-events (first_state second).world 55000 1 alone pair_lem.4)

still : heard_one.task ≡ idle
unfolding with_world first_state
still = refl

looked-Reach : Reach little_endian one_byte 2 looked
looked-Reach =
    next
      (next (Settled-Reach little_endian one_byte 2 heard_one-Settled)
        (takes event create still popped refl))
      (views event refl refl)

Reach-IsSafe_example : IsSafe 2 looked
Reach-IsSafe_example = Reach-IsSafe little_endian one_byte fixed-Rounds 2 (omega arith) looked-Reach

handled_routes_example :
    let m = heard_one.world.matrix in
    let r = (recomputed looked (viewed event view)).handler.routing.table 0 in
    (r.valid ≡ true)
    × (r.destination ≡ m.ids 0)
    × ((j : ℕ) × (j < m.active)
        × (heard_one.world.tree 1 j ≡ 1)
        × (linked m 1 j ≡ true)
        × (r.next_hop ≡ m.ids j))
handled_routes_example =
    handled_routes little_endian one_byte fixed-Rounds 2 (omega arith) heard_one looked event 1 0
      heard_one-Settled looked-Reach refl (omega (arith, two_nodes)) (omega (arith, two_nodes))
      heard_one-second two_joined here (λ e. absurd (omega (arith, e)))

three_nodes : looked.handler.routing.num_nodes ≡ 3
unfolding with_world first_state started routing_manager_create
three_nodes = refl

-- the kernel of the netlink tests, without routes before
handled_kernel_example :
    let m = heard_one.world.matrix in
    let after =
      perform_all kernel linux addresses names
        (recomputed looked (viewed event view)).handler.routing.kernel
        empty in
    (j : ℕ) × (j < m.active)
    × (linked m 1 j ≡ true)
    × (kernel-Serves.route after table_main (names-Resolves.mesh_ip (m.ids 0))
        ≡ some (names-Resolves.mesh_ip (m.ids j), suc names-Resolves.mesh_index))
    × (kernel-Serves.route after relay_table (names-Resolves.mesh_ip (m.ids 0))
        ≡ some (names-Resolves.phy_ip (m.ids j), suc names-Resolves.phy_index))
handled_kernel_example =
    handled_kernel kernel linux addresses names kernel-Serves names-Resolves empty little_endian
      one_byte fixed-Rounds 2 (omega arith) heard_one looked event 1 0
      (record { main = λ d. none; relay = λ d. none }) empty-Shows heard_one-Settled looked-Reach
      refl (omega (arith, two_nodes)) (omega (arith, two_nodes)) heard_one-second two_joined here
      (λ e. absurd (omega (arith, e))) (omega (arith, three_nodes, heard_one-first))
