-- ===== src/Events.antt =====
-- event_handler.c: the queue between the matrix and the routing, and the handler of an event. The linked list from
-- head to tail is a List, which Linked relates to the memory. The lock makes each operation one step; a pop that has to
-- wait is an answer of its own.
pub mod Handler
pub mod Linked
mod Tests
use routing_mesh.Prelude.{
  ℕ, zero, suc, ◌+◌, ◌-◌, Bool, true, false, ◌&&◌, Option, none, some, List, [], ◌∷◌, ◌++◌, leb,
  if◌then◌else◌, upd,
}
use routing_mesh.Routing.{View, Manager, KernelCall, recompute}

-- `event_type_t`
pub data EventType : Type 0 where
  topology_changed : EventType
  node_timeout : EventType
  node_joined : EventType

-- `event_t` without its link and its timestamp, which nothing reads
pub record Event : Type 0 where
  pub type : EventType
  pub node_id : ℕ

-- `event_queue_t`
pub record EventQueue : Type 0 where
  pub events : List Event
  pub count : ℕ
  pub running : Bool

-- `event_queue_create`
abbrev pub create : EventQueue
create = record { events = []; count = 0; running = true }

-- `event_queue_push`
unfoldable pub push : EventQueue → Event → EventQueue
push q e = record q { events = q.events ++ e ∷ []; count = q.count + 1 }

-- the answers of `event_queue_pop`: NULL when the queue has stopped, an event, or a wait on `not_empty`
pub data Popped : Type 0 where
  stopped : Popped
  event : Event → EventQueue → Popped
  waiting : Popped

unfoldable pub pop_from : EventQueue → Bool → List Event → Popped
pop_from q false l = stopped
pop_from q true [] = waiting
pop_from q true (e ∷ l) = event e (record q { events = l; count = q.count - 1 })

-- `event_queue_pop`
unfoldable pub pop : EventQueue → Popped
pop q = pop_from q q.running q.events

-- what the handler works on: the routing manager and tcp_sockfd, with `none` for -1, and the sockets it has closed
pub record Node (D : Type 0) : Type 0 where
  pub routing : Manager D KernelCall
  pub num_nodes : ℕ
  pub tcp_sockfd : ℕ → Option ℕ
  pub closed : List ℕ

-- the socket of a peer that timed out is closed
pub close_socket : {D : Type 0} → Node D → ℕ → Option ℕ → Node D
close_socket node id none = node
close_socket node id (some fd) = record node {
  tcp_sockfd = upd node.tcp_sockfd id none;
  closed = fd ∷ node.closed;
}

pub close_peer : {D : Type 0} → Node D → ℕ → Node D
close_peer node id =
    if leb 1 id && leb id node.num_nodes then close_socket node id (node.tcp_sockfd id) else node

-- behind the computation of the routes
unfoldable pub finish : {D : Type 0} → Node D → Event → Node D
finish node e = elim e.type [
  | topology_changed ↦ node
  | node_timeout ↦ close_peer node e.node_id
  | node_joined ↦ node
]

-- the body of the loop of `event_handler_loop` on an event, with the snapshot `view` of the matrix
pub handle : {D : Type 0} → View → Node D → Event → Node D
handle view node e = finish (record node { routing = recompute node.routing view }) e
