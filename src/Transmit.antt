-- ===== src/Transmit.antt =====
-- node.c, `tx_loop`: when a node may send, and until when. Times are in microseconds.
pub mod End
pub mod Data
pub mod Slot
pub mod Loop
mod Tests
use routing_mesh.Prelude.{
  ℕ, ◌+◌, ◌-◌, ◌*◌, ◌/◌, ◌%◌, Bool, true, false, not, ltb, ◌==◌, if◌then◌else◌,
}
use routing_mesh.Sync.{Sync, in_slot}

-- GUARD_US
abbrev pub guard_us : ℕ
guard_us = 5000

-- `slot_end`, before the guard is taken off: begin_ms and end_ms of the slot, and a round of `round_us`
pub raw_end : ℕ → ℕ → ℕ → ℕ → ℕ
raw_end begin_ms end_ms round_us now =
    let frame_start = now - now % round_us in
    if ltb begin_ms end_ms
    then frame_start + end_ms * 1000
    else frame_start + round_us + end_ms * 1000

pub slot_end : ℕ → ℕ → ℕ → ℕ → ℕ
slot_end begin_ms end_ms round_us now =
    let e = raw_end begin_ms end_ms round_us now in if ltb guard_us e then e - guard_us else e

-- the two guards in front of a transmission: in the slot, and not yet in this round; the round of the last
-- transmission and whether the node goes on to send
unfoldable pub may_send : {T : Type 0} → Sync T → ℕ → ℕ → ℕ → Bool × ℕ
may_send s period now last_tx_round =
    let round = now / (period * 1000) in
    if not (in_slot s now period)
    then (false, last_tx_round)
    else (if round == last_tx_round then (false, last_tx_round) else (true, round))
