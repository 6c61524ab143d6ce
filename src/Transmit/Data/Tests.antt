-- ===== src/Transmit/Data/Tests.antt =====
-- The data loop at a queue of three packets, for nodes 1 and 2 and one that has no route, on the mesh of `row`.
use routing_mesh.Prelude.{
  ℕ, ◌+◌, ◌*◌, ◌≤◌, ◌≡◌, refl, true, some, List, [], ◌∷◌, ◌++◌, arith, length,
}
use routing_mesh.Routing.{recompute}
use routing_mesh.Routing.Tests.{row, manager}
use routing_mesh.Frame.{Message, receive_all}
use routing_mesh.Frame.Tests.{little_endian}
use routing_mesh.TxQueue.{Pkt}
use routing_mesh.TxQueue.Order.{IsValid}
use routing_mesh.Transmit.Data.{Env, Data, data_loop, max_bytes_slot}
use routing_mesh.Transmit.Data.Cases.{state_of}
use routing_mesh.Transmit.Data.Ends.{is_finished, data_loop_ends}
use routing_mesh.Transmit.Data.Budget.{total, data_loop_budget}
use routing_mesh.Transmit.Data.Carried.{Carried, bytes_on}
use routing_mesh.Transmit.Data.Sends.{AllWhole, Left}
use routing_mesh.Transmit.Data.Delivered.{Quiet, data_loop_received}

-- a round takes ten microseconds; socket 30 + h leads to node h
abbrev pub env : Env ℕ ℕ
env = record {
  clock = λ i. 1000 + 10 * i;
  stamp = λ i. i;
  routing = λ _. recompute manager row;
  known = λ _. true;
  tcp_sockfd = λ _ hop. some (30 + hop);
  send = λ _ b. some (length b);
  memory = λ _. true;
  arrivals = λ _. [];
}

abbrev packets : List Pkt
packets =
    record { bytes = 69 ∷ 0 ∷ []; len = 2; dst_id = 1 }
    ∷ record { bytes = 70 ∷ []; len = 1; dst_id = 4 }
    ∷ record { bytes = 71 ∷ []; len = 1; dst_id = 9 }
    ∷ []

abbrev pub start : Data
start = record {
  queue = record { packets = packets; count = 3 };
  bytes_sent = 0;
  pkts_sent = 0;
  tx_counter = 7;
  data_msg_id = 65535;
  wire = [];
  failed = [];
}

start-IsValid : IsValid start.queue
start-IsValid = record { counted = refl; bounded = omega arith }

whole : AllWhole packets
unfolding AllWhole
whole = (
  record { some_bytes = omega arith; few_bytes = omega arith; all_bytes = refl },
  (
    record { some_bytes = omega arith; few_bytes = omega arith; all_bytes = refl },
    (record { some_bytes = omega arith; few_bytes = omega arith; all_bytes = refl }, tt),
  ),
)

env-Quiet : Quiet env
env-Quiet = record {
  no_arrivals = λ i. refl;
  with_memory = λ i. refl;
  whole_frames = λ i b k e. ground (arith, e);
}

data_loop_ends_example :
    (is_finished (data_loop little_endian env 1500 2 51 0 start) ≡ true)
    × ((k : ℕ)
        → data_loop little_endian env 1500 2 (51 + k) 0 start
          ≡ data_loop little_endian env 1500 2 51 0 start)
data_loop_ends_example = data_loop_ends little_endian env 1500 2 50 start (omega arith)

data_loop_budget_example :
    let t = state_of (data_loop little_endian env 1500 2 4 0 start) in
    (t.bytes_sent ≤ max_bytes_slot + 4) × (t.bytes_sent ≡ total t.wire)
data_loop_budget_example =
    data_loop_budget little_endian env 1500 2 (λ j b k e. ground (arith, e)) 4 start refl refl

data_loop_received_example :
    let o = data_loop little_endian env 1500 2 4 0 start in
    (handled : List Pkt) × (rest : List Pkt) × (ms : List Message) × (packets ≡ handled ++ rest)
    × Left o rest
    × (receive_all little_endian (length ms) (λ _. 0) (bytes_on 31 (state_of o).wire) ≡ ms)
    × Carried 2 handled ms
data_loop_received_example =
    data_loop_received little_endian env 1500 2 31 4 start (λ _. 0) env-Quiet start-IsValid whole
      (omega arith) refl
