-- ===== src/Transmit/End.antt =====
-- The end of the slot that `tx_loop` computes, against the next time at which the slot's end comes round.
use routing_mesh.Prelude.{ℕ, ◌+◌, ◌-◌, ◌*◌, ◌%◌, ◌≤◌, ◌<◌, ◌≡◌, arith}
use native.Mathlib.Nat.{mod-lt, mod-le}
use routing_mesh.Sync.Slot.{mod_below, mod_above}
use routing_mesh.Transmit.{raw_end}

-- from now to the next time at which `end_us` of the round comes
pub until_end : ℕ → ℕ → ℕ → ℕ
until_end end_us round_us now = (end_us + round_us - now % round_us) % round_us

-- where a time of the round lies in the slot: in a slot within the round, or before or after the round's end in one that
-- crosses it
pub data InSlot (begin_ms end_ms t : ℕ) : Type 0 where
  straight : begin_ms * 1000 ≤ t → t < end_ms * 1000 → InSlot begin_ms end_ms t
  first_part : end_ms < begin_ms → begin_ms * 1000 ≤ t → InSlot begin_ms end_ms t
  second_part : end_ms < begin_ms → t < end_ms * 1000 → InSlot begin_ms end_ms t

-- what is added in the part behind the crossing
pub excess : {begin_ms end_ms t : ℕ} → ℕ → InSlot begin_ms end_ms t → ℕ
excess round_us (straight a b) = 0
excess round_us (first_part a b) = 0
excess round_us (second_part a b) = round_us

-- For an end within the round and a time in the slot: the computed end is the next end of the slot, unless the slot crosses
-- the end of the round and the time is after the crossing; then it is that end and a whole round.
pub raw_end-next :
    (begin_ms end_ms round_us now : ℕ)
    → 0 < round_us
    → end_ms * 1000 < round_us
    → (i : InSlot begin_ms end_ms (now % round_us))
    → raw_end begin_ms end_ms round_us now
      ≡ now + until_end (end_ms * 1000) round_us now + excess round_us i
unfolding raw_end until_end excess
raw_end-next begin_ms end_ms round_us now pos fits (straight a b) =
    let o : now % round_us < round_us = mod-lt now pos in
    let le : now % round_us ≤ now = mod-le now round_us in
    let above = mod_above (end_ms * 1000 + round_us - now % round_us) round_us in
    ground (arith, o, le, above)
raw_end-next begin_ms end_ms round_us now pos fits (first_part a b) =
    let o : now % round_us < round_us = mod-lt now pos in
    let le : now % round_us ≤ now = mod-le now round_us in
    let below = mod_below (end_ms * 1000 + round_us - now % round_us) round_us in
    ground (arith, o, le, below)
raw_end-next begin_ms end_ms round_us now pos fits (second_part a b) =
    let o : now % round_us < round_us = mod-lt now pos in
    let le : now % round_us ≤ now = mod-le now round_us in
    let above = mod_above (end_ms * 1000 + round_us - now % round_us) round_us in
    ground (arith, o, le, above)
