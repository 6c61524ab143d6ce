-- ===== src/Transmit/Loop/Tests.antt =====
-- Four turns of node 2 in a mesh of three: before its slot, twice in it, and in it one round later.
use routing_mesh.Prelude.{ℕ, ◌≡◌, List, [], ◌∷◌, arith, has}
use routing_mesh.Sync.Tests.{fixed}
use routing_mesh.Matrix.Tests.{one_byte}
use routing_mesh.Matrix.Update.Rising.{Apart}
use routing_mesh.Frame.Tests.{little_endian}
use routing_mesh.Transmit.Data.Tests.{env}
use routing_mesh.Transmit.Slot.Tests.{state}
use routing_mesh.Transmit.Loop.{Turn, tx_loop, tx_loop_start}
use routing_mesh.Transmit.Loop.Once.{sent_rounds, slot_rounds, Ascending, sends_once}

abbrev pub turn_at : ℕ → Turn fixed fixed
turn_at t = record {
  meanwhile = λ tx. tx;
  now = t;
  grace_now = t;
  last_rx = λ _. 0;
  rand = 7;
  epoch = 55000;
  env = env;
}

abbrev turns : List (Turn fixed fixed)
turns = turn_at 10000 ∷ turn_at 60000 ∷ turn_at 70000 ∷ turn_at 210000 ∷ []

turns-Ascending : Ascending 0 turns
unfolding Ascending
turns-Ascending = (
  omega arith,
  omega arith,
  (omega arith, omega arith, (omega arith, omega arith, (omega arith, omega arith, tt))),
)

sends_once_example :
    let rs = tx_loop little_endian one_byte 51 2 3 150 0 turns (tx_loop_start state) in
    Apart (sent_rounds 150 rs) × ((x : ℕ) → has x (sent_rounds 150 rs) ≡ has x (slot_rounds 150 rs))
sends_once_example =
    sends_once little_endian one_byte 51 2 3 150 0 turns state (omega arith) turns-Ascending
