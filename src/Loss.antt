-- ===== src/Loss.antt =====
-- node.c, `tx_loop`: the sliding window of received frames per neighbour, which degrades weak links once per round.
-- __builtin_popcount counts the bits of the 16-bit window.
pub mod Window
pub mod Rounds
mod Tests
use routing_mesh.Prelude.{
  ℕ, zero, suc, ◌+◌, ◌-◌, ◌*◌, ◌/◌, ◌%◌, ◌^◌, Bool, true, false, ◌&&◌, not, leb, ltb, ◌==◌,
  if◌then◌else◌, upd, for_up,
}
use routing_mesh.Matrix.{TdmaMatrix, update_link_quality}

abbrev pub loss_window : ℕ
loss_window = 16

abbrev pub loss_threshold_pct : ℕ
loss_threshold_pct = 60

-- rx_window[], seen[] and degraded[] of one neighbour
pub record Link : Type 0 where
  pub rx_window : ℕ
  pub seen : Bool
  pub degraded : Bool

abbrev pub new_link : Link
new_link = record { rx_window = 0; seen = false; degraded = false }

-- the 1 bits among the low n bits
pub popcount : ℕ → ℕ → ℕ
popcount zero w = 0
popcount (suc n) w = w % 2 + popcount n (w / 2)

-- the window after one more frame
pub slide : ℕ → Bool → ℕ
slide w received = (w * 2 + (if received then 1 else 0)) % 65536

-- `pct < LOSS_THRESHOLD_PCT`
pub weak : ℕ → Bool
weak w = ltb (popcount 16 w * 100 / loss_window) loss_threshold_pct

-- `received`: a frame was heard in this round or the one before; cur_round is a uint64_t
pub is_received : ℕ → ℕ → Bool
is_received last cur_round = leb ((cur_round + 2 ^ 64 - 1) % 2 ^ 64) last

module _ {D : Type 0} where
  -- a neighbour that has been heard before
  pub account : ℕ → Bool → (ℕ → Link) × TdmaMatrix D → (ℕ → Link) × TdmaMatrix D
  account id received (links, m) =
      let w = slide (links id).rx_window received in
      if weak w
      then (
        upd links id (record { rx_window = w; seen = true; degraded = true }),
        update_link_quality m id true,
      )
      else (upd links id (record { rx_window = w; seen = true; degraded = false }), m)

  -- the body of the loop over s
  pub check_node : (ℕ → ℕ) → ℕ → ℕ → ℕ → (ℕ → Link) × TdmaMatrix D → (ℕ → Link) × TdmaMatrix D
  check_node last_rx cur_round me s t =
      let id = s + 1 in
      if id == me
      then t
      else (if last_rx id == 0 then t else account id (is_received (last_rx id) cur_round) t)

  -- the loop, in a new round after the time of grace
  unfoldable pub check_losses :
      ℕ → (ℕ → ℕ) → ℕ → ℕ → (ℕ → Link) × TdmaMatrix D → (ℕ → Link) × TdmaMatrix D
  check_losses num_nodes last_rx cur_round me t =
      for_up num_nodes 0 (check_node last_rx cur_round me) t
