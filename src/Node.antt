-- ===== src/Node.antt =====
-- node.c: the node as a whole. Its threads share the states of the other files; what a thread does between a lock and its
-- unlock is one step, and the steps of all threads come in any order. Who owns a descriptor of tcp_sockfd is in Sockets; here
-- the threads that connect and close peers change its entries in any way.
pub mod Safe
pub mod Routes
pub mod Kernel
mod Tests
use routing_mesh.Prelude.{
  ℕ, zero, suc, ◌+◌, ◌%◌, ◌^◌, ◌≤◌, ◌≡◌, ◌≢◌, upd, Bool, true, false, Option, none, some, List, [],
  ◌∷◌,
}
use routing_mesh.Prelude.Int.{ℤ}
use routing_mesh.Prelude.Float.{Float}
use routing_mesh.Sync.{Sync, record_delay, adjust_slot, data_plane_ready}
use routing_mesh.Matrix.{TdmaMatrix}
use routing_mesh.Matrix.Wire.{Layout, serialize}
use routing_mesh.Matrix.Sound.{ListsNodes}
use routing_mesh.Routing.{View, Manager, KernelCall, recompute}
use routing_mesh.Routing.Mesh.{snapshot}
use routing_mesh.Events
use routing_mesh.Pdr.{pdr_update}
use routing_mesh.Loss.{Link, new_link, check_node}
use routing_mesh.Tun.{read_packet}
use routing_mesh.Frame.{Processor}
use routing_mesh.Receiver.{World, tun_write, heard_at, set_quality, merge}
use routing_mesh.Transmit.Data.{Env, Data, data_round}
use routing_mesh.Transmit.Data.Cases.{state_of}
use routing_mesh.Start.{Boot, Started, Exit, runs, main}

-- where `event_handler_loop` is: before a pop, behind it, behind MATRIX_get_snapshot, behind the computation of the routes
pub data Task : Type 0 where
  idle : Task
  taken : Events.Event → Task
  viewed : Events.Event → View → Task
  routed : Events.Event → Task

-- `node_t`, the states of the other files, the locals of tx_loop that outlive a slot and those of the event handler
pub record State (D F : Float) : Type 0 where
  pub world : World D F
  pub handler : Events.Node D.T
  pub links : ℕ → Link
  pub sending : Data
  pub task : Task

abbrev is_open : Option ℕ → Bool
is_open none = false
is_open (some fd) = true

-- before node_run
pub first_state : {D F : Float} → Started D F → State D F
first_state n = record {
  world = record {
    last_rx = λ _. 0;
    sync = n.sync;
    matrix = n.matrix;
    tree = λ _ _. 0;
    events = n.event_queue;
    pdr = n.pdr;
    tun_open = is_open n.tun_fd;
    tun = [];
  };
  handler = record {
    routing = n.routing;
    num_nodes = n.num_nodes;
    tcp_sockfd = λ _. none;
    closed = [];
  };
  links = λ _. new_link;
  sending = record {
    queue = n.tx_queue;
    bytes_sent = 0;
    pkts_sent = 0;
    tx_counter = 0;
    data_msg_id = 0;
    wire = [];
    failed = [];
  };
  task = idle;
}

-- behind the sending of a beacon
pub slot_start : Data → Data
slot_start d = record d { tx_counter = (d.tx_counter + 1) % 2 ^ 32; bytes_sent = 0; pkts_sent = 0 }

module _ {D F : Float} where
  -- a step that changes the world only
  pub with_world : State D F → World D F → State D F
  with_world s w = record s { world = w }

  pub with_queue : State D F → Bool → Bool → ℕ → List ℕ → State D F
  with_queue s ready memory me packet = record s {
    sending = record s.sending { queue = read_packet ready memory me s.sending.queue packet };
  }

  -- one round of the loop over the neighbours
  pub checked : State D F → ℕ → ℕ → ℕ → State D F
  checked s cur_round me k =
      let (links, m) = check_node s.world.last_rx cur_round me k (s.links, s.world.matrix) in
      record s { links = links; world = record s.world { matrix = m } }

  -- a beacon goes out
  pub beaconed : Layout D.T → D.T → State D F → State D F
  beaconed l now s = record s {
    world = record s.world { matrix = (serialize D now l s.world.matrix).0 };
    sending = slot_start s.sending;
  }

  pub counted : State D F → ℕ → ℕ → State D F
  counted s src id =
      let (pdr, m) = pdr_update F (s.world.pdr, s.world.matrix) src id in
      record s { world = record s.world { pdr = pdr; matrix = m } }

  -- the routes are computed from the snapshot that the event handler holds
  pub recomputed : State D F → Task → State D F
  recomputed s (viewed e v) = record s {
    handler = record s.handler { routing = recompute s.handler.routing v };
    task = routed e;
  }
  recomputed s idle = s
  recomputed s (taken e) = s
  recomputed s (routed e) = s

  -- an entry of tcp_sockfd is set
  pub with_peer : State D F → ℕ → Option ℕ → State D F
  with_peer s i o = record s {
    handler = record s.handler { tcp_sockfd = upd s.handler.tcp_sockfd i o };
  }

-- `receiver_loop` and `tcp_rx_peer_loop`: hears, records, rates, merges, counts, writes. `tx_loop`: checks, beacons, sends,
-- adjusts. `tun_reader_loop`: reads. `event_handler_loop`: takes, views, recomputes, finishes. `tcp_accept_loop` and
-- `tcp_keepalive_loop`: connects. These two, `tcp_rx_peer_loop` and `tx_loop` after a send that failed: loses. A merge is of a
-- matrix from another node that lists at most 15 nodes, with identifiers from 1 to 15.
pub data Step {D F : Float} (proc : Processor D.T) (l : Layout D.T) (me : ℕ) (s t : State D F)
    : Type 0 where
  hears : (round sender : ℕ) → t ≡ with_world s (heard_at round s.world sender) → Step proc l me s t
  records :
      (delay : F.T) (sender : ℕ)
      → t ≡ with_world s (record s.world { sync = record_delay s.world.sync delay sender })
      → Step proc l me s t
  rates :
      (sender quality : ℕ)
      → t ≡ with_world s (set_quality s.world sender quality)
      → Step proc l me s t
  merges :
      (now : D.T) (sender : ℕ) (new : TdmaMatrix D.T)
      → sender ≢ me
      → ListsNodes new
      → t ≡ with_world s (merge now s.world sender new)
      → Step proc l me s t
  counts : (src id : ℕ) → t ≡ counted s src id → Step proc l me s t
  writes :
      (packet : List ℕ)
      → t ≡ with_world s (record s.world { tun = tun_write s.world.tun_open s.world.tun packet })
      → Step proc l me s t
  checks : (cur_round k : ℕ) → t ≡ checked s cur_round me k → Step proc l me s t
  beacons : (now : D.T) → t ≡ beaconed l now s → Step proc l me s t
  sends :
      (env : Env D.T D.T) (slot_end i : ℕ)
      → env.arrivals i ≡ []
      → env.routing i ≡ s.handler.routing
      → env.tcp_sockfd i ≡ s.handler.tcp_sockfd
      → t ≡ record s { sending = state_of (data_round proc env slot_end me i s.sending) }
      → Step proc l me s t
  adjusts :
      (r : ℕ)
      → r ≤ 100
      → t ≡ with_world s (record s.world { sync = adjust_slot D F s.world.sync r })
      → Step proc l me s t
  reads :
      (now_us : ℕ) (memory : Bool) (packet : List ℕ)
      → t ≡ with_queue s (data_plane_ready s.world.sync now_us) memory me packet
      → Step proc l me s t
  takes :
      (e : Events.Event) (q : Events.EventQueue)
      → s.task ≡ idle
      → Events.pop s.world.events ≡ Events.event e q
      → t ≡ record s { world = record s.world { events = q }; task = taken e }
      → Step proc l me s t
  views :
      (e : Events.Event)
      → s.task ≡ taken e
      → t ≡ record s { task = viewed e (snapshot s.world.matrix s.world.tree) }
      → Step proc l me s t
  recomputes : t ≡ recomputed s s.task → Step proc l me s t
  finishes :
      (e : Events.Event)
      → s.task ≡ routed e
      → t ≡ record s { handler = Events.finish s.handler e; task = idle }
      → Step proc l me s t
  connects :
      (i fd : ℕ)
      → 1 ≤ i
      → i ≤ s.handler.num_nodes
      → t ≡ with_peer s i (some fd)
      → Step proc l me s t
  loses : (i : ℕ) → 1 ≤ i → i ≤ s.handler.num_nodes → t ≡ with_peer s i none → Step proc l me s t

-- what a node that `main` runs can come to, from the static memory of sync.c
pub data Reach {D F : Float} (proc : Processor D.T) (l : Layout D.T) (me : ℕ)
    : State D F → Type 0 where
  start :
      (s0 : Sync F.T) (now_us : ℕ) (now : D.T) (boot : Boot) (a b : ℤ) (opened : List ℕ)
      (n : Started D F)
      → s0.delays ≡ []
      → (main D F s0 now_us now boot 3 a b opened).0 ≡ runs n
      → n.node_id ≡ me
      → Reach proc l me (first_state n)
  next : {s t : State D F} → Reach proc l me s → Step proc l me s t → Reach proc l me t
