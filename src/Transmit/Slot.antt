-- ===== src/Transmit/Slot.antt =====
-- node.c, `tx_loop` in the node's slot: the beacon, the queue, the adjustment of the slot and the sleep. The beacon goes to
-- the UDP port of every other node.
pub mod Heard
pub mod Tests
use routing_mesh.Prelude.{
  ℕ, zero, suc, ◌+◌, ◌-◌, ◌*◌, ◌%◌, ◌^◌, Bool, List, [], ◌∷◌, ◌++◌, ltb, ◌==◌, if◌then◌else◌, slice,
}
use routing_mesh.Prelude.Int.{pos}
use routing_mesh.Prelude.Float.{Float}
use routing_mesh.Sync.{Sync, adjust_slot}
use routing_mesh.Matrix.{TdmaMatrix}
use routing_mesh.Matrix.Wire.{Layout, serialize}
use routing_mesh.Frame.{Processor, Header, header_bytes}
use routing_mesh.Receiver.{matrix_type}
use routing_mesh.Transmit.{guard_us, slot_end}
use routing_mesh.Transmit.Data.{Env, Data, data_loop}
use routing_mesh.Transmit.Data.Cases.{state_of}

-- the loop over the other nodes, from node i with k left
pub destinations : ℕ → ℕ → ℕ → List ℕ
destinations me zero i = []
destinations me (suc k) i =
    let rest = destinations me k (i + 1) in if i == me then rest else i ∷ rest

-- what the loop keeps between slots
pub record Tx (D F : Float) : Type 0 where
  pub sync : Sync F.T
  pub matrix : TdmaMatrix D.T
  pub sending : Data

-- `sleep_time` behind a slot
pub sleep_time : ℕ → ℕ → ℕ
sleep_time end now_us =
    let t = end + guard_us - now_us in
    if ltb now_us (end + guard_us) then (if ltb t 50000 then t else 0) else 0

module _ {D F : Float} (proc : Processor D.T) (l : Layout D.T) where
  -- the headers of a beacon
  pub beacon_header : ℕ → ℕ → Tx D F → Header D.T
  beacon_header me now_us s = record {
    type = matrix_type;
    slot_id = me;
    seq_num = s.sending.tx_counter;
    timestamp = D.div (D.of_int (pos now_us)) (D.lit 1000000 0);
    slot_begin_ms = s.sync.begin_ms;
    slot_end_ms = s.sync.end_ms;
  }

  -- `pkt_buffer` up to total_len
  pub beacon : D.T → ℕ → ℕ → Tx D F → List ℕ
  beacon now me now_us s =
      let (m, payload, len) = serialize D now l s.matrix in
      header_bytes proc (beacon_header me now_us s) ++ slice payload 0 len

  -- The slot at the time now_us, with r for rand() % 101: the state, and the beacon with those it goes to. A round is the
  -- period of the slot: node_init gives sync_init the period that tx_loop computes. (The case of no memory is left out.)
  unfoldable pub tx_slot : Env D.T D.T → ℕ → ℕ → ℕ → ℕ → ℕ → D.T → Tx D F → Tx D F × List ℕ × List ℕ
  tx_slot env fuel me num_nodes r now_us now s =
      let end = slot_end s.sync.begin_ms s.sync.end_ms (s.sync.period * 1000) now_us in
      let (m, payload, len) = serialize D now l s.matrix in
      let start = record s.sending {
        tx_counter = (s.sending.tx_counter + 1) % 2 ^ 32;
        bytes_sent = 0;
        pkts_sent = 0;
      } in
      (
        record s {
          sync = adjust_slot D F s.sync r;
          matrix = m;
          sending = state_of (data_loop proc env end me fuel 0 start);
        },
        destinations me num_nodes 1,
        beacon now me now_us s,
      )
