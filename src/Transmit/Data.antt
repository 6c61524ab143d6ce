-- ===== src/Transmit/Data.antt =====
-- node.c, `tx_loop`: the MSG_DATA packets that go out in the slot. What changes from round to round without the loop is
-- in `Env`: the clock, the routing manager, the sockets, the answers of send, and the packets that arrive in the queue.
pub mod Cases
pub mod Ends
pub mod Budget
pub mod Carried
pub mod Sends
pub mod Delivered
pub mod Queue
pub mod Tests
use routing_mesh.Prelude.{
  ℕ, zero, suc, ◌+◌, ◌-◌, ◌*◌, ◌/◌, ◌%◌, ◌^◌, Bool, true, false, Option, none, some, List, [], ◌∷◌,
  ◌++◌, ltb, leb, ◌==◌, if◌then◌else◌, take,
}
use routing_mesh.Routing.{Manager, KernelCall, lookup}
use routing_mesh.TxQueue.{Pkt, TxQueue, push, pop}
use routing_mesh.TxQueue.Order.{push_all}
use routing_mesh.Frame.{
  Processor, Header, Message, frame, msg_data, tdma_header_size, msg_data_hdr_wire,
}

-- T_TRANS_US(1500), SLOT_USEFUL_US and MAX_BYTES_SLOT
abbrev t_trans_us : ℕ
t_trans_us = 1500 * 8 * 1000000 / 24000000

abbrev pub max_bytes_slot : ℕ
max_bytes_slot = (50000 - 5000) / t_trans_us * 1500

-- Round by round: get_time_us, the timestamp, node->routing, whether peer_ips has an address, tcp_sockfd as read, what
-- send returns (`none` is -1), whether malloc gives a packet, and what `tun_reader_loop` has pushed since the last round.
pub record Env (D T : Type 0) : Type 0 where
  pub clock : ℕ → ℕ
  pub stamp : ℕ → D
  pub routing : ℕ → Manager T KernelCall
  pub known : ℕ → Bool
  pub tcp_sockfd : ℕ → ℕ → Option ℕ
  pub send : ℕ → List ℕ → Option ℕ
  pub memory : ℕ → Bool
  pub arrivals : ℕ → List Pkt

-- the queue and the variables of the loop; the bytes that sockets have taken, in their order; the sockets that failed,
-- with the peer, the latest first
pub record Data : Type 0 where
  pub queue : TxQueue
  pub bytes_sent : ℕ
  pub pkts_sent : ℕ
  pub tx_counter : ℕ
  pub data_msg_id : ℕ
  pub wire : List (ℕ × List ℕ)
  pub failed : List (ℕ × ℕ)

pub data Outcome : Type 0 where
  finished : Data → Outcome
  again : Data → Outcome

-- a round, and the rounds after it unless it ends the loop
pub and_then : Outcome → (Data → Outcome) → Outcome
and_then (finished t) later = finished t
and_then (again t) later = later t

-- behind send: a socket that fails is closed
pub after_send : Data → ℕ → ℕ → List ℕ → Option ℕ → Data
after_send s hop fd bytes none = record s { failed = (hop, fd) ∷ s.failed }
after_send s hop fd bytes (some k) = if k == 0 then s else record s {
  bytes_sent = s.bytes_sent + k;
  pkts_sent = (s.pkts_sent + 1) % 2 ^ 32;
  wire = s.wire ++ (fd, take k bytes) ∷ [];
}

-- tx_counter++ and data_msg_id++
pub numbered : Data → Data
numbered s = record s {
  tx_counter = (s.tx_counter + 1) % 2 ^ 32;
  data_msg_id = (s.data_msg_id + 1) % 2 ^ 16;
}

module _ {D T : Type 0} (env : Env D T) where
  -- from the socket of the next hop
  pub to_socket : ℕ → Data → ℕ → List ℕ → Option ℕ → Data
  to_socket i s hop bytes none = s
  to_socket i s hop bytes (some fd) = after_send s hop fd bytes (env.send i bytes)

  -- a packet back at the end of the queue
  pub push_back : ℕ → Data → Pkt → Data
  push_back i s p = record s { queue = push (env.memory i) s.queue p.bytes p.len p.dst_id }

-- the headers of a packet
pub header_of : {D T : Type 0} → Env D T → ℕ → ℕ → Data → Header D
header_of env me i s = record {
  type = msg_data;
  slot_id = me;
  seq_num = s.tx_counter;
  timestamp = env.stamp i;
  slot_begin_ms = 0;
  slot_end_ms = 0;
}

pub message_of : ℕ → Data → Pkt → Message
message_of me s p = record {
  src_id = me;
  dst_id = p.dst_id;
  msg_id = s.data_msg_id;
  payload = take p.len p.bytes;
}

module _ {D T : Type 0} (proc : Processor D) (env : Env D T) (slot_end me : ℕ) where
  -- the body of the loop on a packet that has left the queue
  pub send_packet : ℕ → Data → Pkt → Outcome
  send_packet i s p =
      let hop = lookup (env.routing i) p.dst_id in
      if leb slot_end (env.clock i)
      then finished (push_back env i s p)
      else (if hop == 0
          then again s
          else (if ltb max_bytes_slot (s.bytes_sent + tdma_header_size + msg_data_hdr_wire + p.len)
              then finished (push_back env i (numbered s) p)
              else (if env.known hop
                  then again (
                      to_socket env i (numbered s) hop
                        (frame proc (header_of env me i s) (message_of me s p))
                        (env.tcp_sockfd i hop))
                  else again (numbered s))))

  pub from_pop : ℕ → Data → Option Pkt × TxQueue → Outcome
  from_pop i s (none, q) = finished (record s { queue = q })
  from_pop i s (some p, q) = send_packet i (record s { queue = q }) p

  -- a round of the loop
  pub data_round : ℕ → Data → Outcome
  data_round i s = from_pop i s (pop (push_all s.queue (env.arrivals i)))

  -- at most n rounds, from round i
  pub data_loop : ℕ → ℕ → Data → Outcome
  data_loop zero i s = again s
  data_loop (suc n) i s = and_then (data_round i s) (data_loop n (i + 1))
