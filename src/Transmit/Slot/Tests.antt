-- ===== src/Transmit/Slot/Tests.antt =====
-- The slot of node 2 in a mesh of three, and its beacon at node 2 of the same mesh.
use routing_mesh.Prelude.{ℕ, ◌≤◌, ◌≡◌, ◌||◌, ◌&&◌, not, leb, ◌==◌, has}
use routing_mesh.Sync.Tests.{fixed, blank}
use routing_mesh.Matrix.Tests.{three, three-IsSound, one_byte}
use routing_mesh.Matrix.Update.Ids.{known}
use routing_mesh.Frame.Tests.{little_endian}
use routing_mesh.Receiver.{receive_udp}
use routing_mesh.Receiver.Tests.{rounding, world, clock}
use routing_mesh.Transmit.Data.Tests.{env, start}
use routing_mesh.Transmit.Slot.{Tx, tx_slot}
use routing_mesh.Transmit.Slot.Heard.{beacon_heard}

abbrev pub state : Tx fixed fixed
state = record {
  sync = record blank { slot_id = 2; num_nodes = 3; period = 150; begin_ms = 50; end_ms = 100 };
  matrix = three;
  sending = start;
}

beacon_heard_example :
    let (s', dests, bytes) = tx_slot little_endian one_byte env 51 2 3 7 4060000 55000 state in
    ((x : ℕ) → has x dests ≡ (leb 1 x && (leb x 3 && not (x == 2))))
    × (let w' =
          (receive_udp little_endian one_byte rounding 4 (λ _. 0) clock world (λ _. 0) bytes).0 in
        ((id : ℕ) → known w'.matrix id ≡ (known three id || known s'.matrix id))
        × (w'.matrix.active ≤ 15))
beacon_heard_example =
    beacon_heard fixed fixed little_endian one_byte rounding 51 4 (λ _. 0) env 2 3 7 4060000 55000
      state clock world (λ _. 0) three-IsSound three-IsSound
