-- ===== src/Start.antt =====
-- main.c, node.c (`node_init`) and tun.c (`tun_open`), with the initial states of the other files: how the node starts.
-- What the kernel answers is an argument; `none` is -1 and `false` a call that fails. The list is the descriptors that are
-- open. The commands that the shell runs are left out.
pub mod Accepted
pub mod Main
pub mod Ran
pub mod Tests
use routing_mesh.Prelude.{
  ℕ, zero, suc, ◌+◌, ◌*◌, ◌/◌, ◌%◌, ◌^◌, ◌≡◌, Bool, true, false, not, ◌||◌, Option, none, some,
  List, [], ◌∷◌, ◌==◌, if◌then◌else◌,
}
use routing_mesh.Prelude.Int.{ℤ, pos, negsuc, pos_part, ltb_ℤ}
use routing_mesh.Prelude.Float.{Float}
use routing_mesh.Sync.{Sync}
use routing_mesh.Matrix.{TdmaMatrix}
use routing_mesh.Matrix.Update
use routing_mesh.Routing.{Manager, KernelCall, no_entry}
use routing_mesh.Events
use routing_mesh.TxQueue
use routing_mesh.Pdr.{Pdr}
use routing_mesh.Sockets
use routing_mesh.Sync

-- `routing_manager_create`, when calloc gives the memory
unfoldable pub routing_manager_create : {D : Type 0} → D → ℕ → ℕ → Manager D KernelCall
routing_manager_create zero_time my_node_id num_nodes = record {
  my_node_id = my_node_id;
  num_nodes = num_nodes;
  table = λ _. no_entry;
  link_stats = λ _. record {
    packets_received = 0;
    packets_expected = 0;
    consecutive_losses = 0;
    last_seen = zero_time;
  };
  needs_recompute = false;
  recompute_count = 0;
  kernel = [];
}

-- `pdr_init`
pub pdr_init : (F : Float) → Pdr F.T
pdr_init F = record {
  seq_table = λ _ _. 0;
  w_ptr = λ _. 0;
  pdr_in = λ _. F.of_int (negsuc 0);
  pkt_count = λ _. 0;
}

-- close(fd)
pub close_fd : ℕ → List ℕ → List ℕ
close_fd fd [] = []
close_fd fd (x ∷ l) = let rest = close_fd fd l in if x == fd then l else x ∷ rest

-- the answers to the calls of `tun_open`, in their order
pub record TunCalls : Type 0 where
  pub open_tun : Option ℕ
  pub set_iff : Bool
  pub socket : Option ℕ
  pub set_addr : Bool
  pub set_netmask : Bool
  pub get_flags : Bool
  pub set_flags : Bool

-- an ioctl on the second socket: if it fails both are closed
pub or_close : Bool → ℕ → ℕ → List ℕ → Option ℕ × List ℕ → Option ℕ × List ℕ
or_close true sock fd l later = later
or_close false sock fd l later = (none, close_fd fd (close_fd sock l))

-- from the second socket on
pub configure : TunCalls → ℕ → Option ℕ → List ℕ → Option ℕ × List ℕ
configure c fd none l = (none, close_fd fd l)
configure c fd (some sock) l =
    let opened = sock ∷ l in
    or_close c.set_addr sock fd opened (
      or_close c.set_netmask sock fd opened (
        or_close c.get_flags sock fd opened
          (or_close c.set_flags sock fd opened (some fd, close_fd sock opened))))

pub tun_from : TunCalls → Option ℕ → List ℕ → Option ℕ × List ℕ
tun_from c none l = (none, l)
tun_from c (some fd) l =
    if c.set_iff then configure c fd c.socket (fd ∷ l) else (none, close_fd fd (fd ∷ l))

-- `tun_open`
pub tun_open : TunCalls → List ℕ → Option ℕ × List ℕ
tun_open c l = tun_from c c.open_tun l

-- the answers to the calls of `node_init`, in their order
pub record Boot : Type 0 where
  pub memory : Bool
  pub udp_socket : Option ℕ
  pub bind_udp : Bool
  pub tcp_socket : Option ℕ
  pub bind_tcp : Bool
  pub tun : TunCalls

-- the listening socket: without it the node goes on
pub listen_on : Bool → Option ℕ → List ℕ → Option ℕ × List ℕ
listen_on bound none l = (none, l)
listen_on true (some fd) l = (some fd, fd ∷ l)
listen_on false (some fd) l = (none, close_fd fd (fd ∷ l))

-- `node_t` and the states of the other files behind `node_init`
pub record Started (D F : Float) : Type 0 where
  pub node_id : ℕ
  pub num_nodes : ℕ
  pub port : ℕ
  pub frame_duration_us : ℕ
  pub sockfd : ℕ
  pub tcp_server_fd : Option ℕ
  pub tun_fd : Option ℕ
  pub sockets : Sockets.Sockets
  pub sync : Sync F.T
  pub matrix : TdmaMatrix D.T
  pub routing : Manager D.T KernelCall
  pub event_queue : Events.EventQueue
  pub tx_queue : TxQueue.TxQueue
  pub pdr : Pdr F.T

module _ (D F : Float) (s0 : Sync F.T) (now_us : ℕ) (now : D.T) where
  -- the fields of the node, with a socket and what the later calls gave; s0 is the static memory of sync.c
  unfoldable pub started : ℕ → ℕ → ℕ → Option ℕ → Option ℕ → Started D F
  started node_id num_nodes fd server tun = record {
    node_id = node_id;
    num_nodes = num_nodes;
    port = 7000 + node_id;
    frame_duration_us = num_nodes * 50000;
    sockfd = fd;
    tcp_server_fd = server;
    tun_fd = tun;
    sockets = Sockets.init;
    sync = Sync.init s0 node_id num_nodes (num_nodes * 50000 / 1000 % 2 ^ 16) now_us;
    matrix = Update.init D now node_id;
    routing = routing_manager_create (D.of_int (pos 0)) node_id num_nodes;
    event_queue = Events.create;
    tx_queue = TxQueue.create;
    pdr = pdr_init F;
  }

  pub bound : Boot → ℕ → ℕ → ℕ → List ℕ → Option (Started D F) × List ℕ
  bound boot node_id num_nodes fd l =
      let (server, l1) = listen_on boot.bind_tcp boot.tcp_socket (fd ∷ l) in
      let (tun, l2) = tun_open boot.tun l1 in
      if boot.bind_udp
      then (some (started node_id num_nodes fd server tun), l2)
      else (none, close_fd fd (fd ∷ l))

  pub with_socket : Boot → ℕ → ℕ → Option ℕ → List ℕ → Option (Started D F) × List ℕ
  with_socket boot node_id num_nodes none l = (none, l)
  with_socket boot node_id num_nodes (some fd) l = bound boot node_id num_nodes fd l

  -- `node_init`
  pub node_init : Boot → ℕ → ℕ → List ℕ → Option (Started D F) × List ℕ
  node_init boot node_id num_nodes l =
      if boot.memory then with_socket boot node_id num_nodes boot.udp_socket l else (none, l)

-- how `main` goes on: it prints and returns 1, or it runs the node
pub data Exit (D F : Float) : Type 0 where
  usage : Exit D F
  bad_node_id : Exit D F
  bad_num_nodes : Exit D F
  id_above : Exit D F
  not_started : Exit D F
  runs : Started D F → Exit D F

pub after_init : {D F : Float} → Option (Started D F) × List ℕ → Exit D F × List ℕ
after_init (none, l) = (not_started, l)
after_init (some n, l) = (runs n, l)

-- node_id < 1 || node_id > MAX_NODES, and the same for num_nodes from `low`
abbrev pub outside : ℕ → ℤ → Bool
outside low a = ltb_ℤ a (pos low) || ltb_ℤ (pos 20) a

-- `main`, up to node_run; a and b are what atoi gives of the two arguments
pub main : (D F : Float) → Sync F.T → ℕ → D.T → Boot → ℕ → ℤ → ℤ → List ℕ → Exit D F × List ℕ
main D F s0 now_us now boot argc a b l =
    if not (argc == 3)
    then (usage, l)
    else (if outside 1 a
        then (bad_node_id, l)
        else (if outside 2 b
            then (bad_num_nodes, l)
            else (if ltb_ℤ b a
                then (id_above, l)
                else after_init (
                    node_init D F s0 now_us now boot (pos_part a % 2 ^ 8) (pos_part b % 2 ^ 8) l))))
