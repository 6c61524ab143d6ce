-- ===== src/Transmit/Loop.antt =====
-- node.c, `tx_loop`: the choice of a turn between the slot, the loss check and waiting.
pub mod Once
pub mod Tests
use routing_mesh.Prelude.{
  ℕ, ◌+◌, ◌-◌, ◌*◌, ◌/◌, ◌%◌, ◌^◌, Bool, List, [], ◌∷◌, Option, none, some, ltb, ◌==◌,
  if◌then◌else◌,
}
use routing_mesh.Prelude.Float.{Float}
use routing_mesh.Sync.{Sync, in_slot}
use routing_mesh.Matrix.Wire.{Layout}
use routing_mesh.Frame.{Processor}
use routing_mesh.Loss.{Link, new_link, check_losses}
use routing_mesh.Transmit.{may_send}
use routing_mesh.Transmit.Data.{Env}
use routing_mesh.Transmit.Slot.{Tx, tx_slot}

-- STARTUP_GRACE_US
abbrev pub startup_grace_us : ℕ
startup_grace_us = 10000000

-- What a turn gets from outside: what the other threads have done to the state since the last turn, both readings of the
-- clock, g_last_rx_frame, rand() % 101, getEpoch, and what the data loop meets.
pub record Turn (D F : Float) : Type 0 where
  pub meanwhile : Tx D F → Tx D F
  pub now : ℕ
  pub grace_now : ℕ
  pub last_rx : ℕ → ℕ
  pub rand : ℕ
  pub epoch : D.T
  pub env : Env D.T D.T

-- the state, with rx_window, seen and degraded, and the two rounds that tx_loop remembers
pub record Control (D F : Float) : Type 0 where
  pub tx : Tx D F
  pub links : ℕ → Link
  pub last_round : ℕ
  pub last_tx_round : ℕ

-- a turn: the time, the slot at that time, and the beacon that was sent with those it went to
pub record Report (F : Float) : Type 0 where
  pub at : ℕ
  pub sync : Sync F.T
  pub sent : Option (List ℕ × List ℕ)

module _ {D F : Float} (proc : Processor D.T) (l : Layout D.T) (fuel me num_nodes rp_ms : ℕ)
    (start_time : ℕ) where
  -- outside of the slot, or in a round in which it has sent
  unfoldable pub wait : Turn D F → Control D F → Control D F
  wait i s =
      let round = i.now / (rp_ms * 1000) in
      let (links, m) = check_losses num_nodes i.last_rx round me (s.links, s.tx.matrix) in
      if in_slot s.tx.sync i.now rp_ms
      then s
      else (if round == s.last_round
          then s
          else (if ltb ((i.grace_now + 2 ^ 64 - start_time) % 2 ^ 64) startup_grace_us
              then record s { last_round = round }
              else record s { last_round = round; links = links; tx = record s.tx { matrix = m } }))

  -- a turn, when the other threads have done their part
  unfoldable pub turn_from : Turn D F → Control D F → Control D F × Option (List ℕ × List ℕ)
  turn_from i s =
      let (sends, round) = may_send s.tx.sync rp_ms i.now s.last_tx_round in
      let (tx, dests, bytes) = tx_slot proc l i.env fuel me num_nodes i.rand i.now i.epoch s.tx in
      let waited = wait i s in
      if sends
      then (record s { tx = tx; last_tx_round = round }, some (dests, bytes))
      else (waited, none)

  pub turn : Turn D F → Control D F → Control D F × Report F
  turn i s =
      let ready = record s { tx = i.meanwhile s.tx } in
      let (s', sent) = turn_from i ready in
      (s', record { at = i.now; sync = ready.tx.sync; sent = sent })

  -- the turns until `running` is off
  pub tx_loop : List (Turn D F) → Control D F → List (Report F)
  tx_loop [] s = []
  tx_loop (i ∷ is) s = let (s', r) = turn i s in r ∷ tx_loop is s'

-- the state at the start: no frame seen, and last_tx_round is (uint64_t)-1
pub tx_loop_start : {D F : Float} → Tx D F → Control D F
tx_loop_start tx = record {
  tx = tx;
  links = λ _. new_link;
  last_round = 0;
  last_tx_round = 2 ^ 64 - 1;
}
