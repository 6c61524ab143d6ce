-- ===== src/Sync/Delay.antt =====
-- `compute_delay` and `get_current_round_time_ms`: how late a beacon is, in the two floating-point formats of the code.
mod Tests
use routing_mesh.Prelude.{
  ℕ, zero, suc, ◌+◌, ◌-◌, ◌*◌, ◌/◌, ◌%◌, ◌^◌, ◌≡◌, refl, sym, ap, ◌∙◌, inl, inr, ◌⊎◌, Bool, true,
  false, ◌&&◌, if◌then◌else◌, arith, Bool-cases,
}
use routing_mesh.Prelude.Int.{ℤ, pos, negsuc, sub_ℕ}
use routing_mesh.Prelude.Float.{Float}
use routing_mesh.Sync.{Sync, width, record_delay}

-- fmod, fmodf and the conversion to float
pub record Rounding (D F : Float) : Type 0 where
  pub fmod : D.T → D.T → D.T
  pub fmodf : F.T → F.T → F.T
  pub narrow : D.T → F.T

module _ (D F : Float) (R : Rounding D F) where
  -- `get_current_round_time_ms`, on tv_sec and tv_nsec
  pub current_round_time_ms : ℕ → ℕ → ℕ → D.T
  current_round_time_ms period sec nsec =
      let whole = D.of_int (pos ((sec * 1000 + nsec / 1000000) % period)) in
      D.add whole (
        D.add (D.of_int (sub_ℕ 0 (nsec / 1000000))) (D.div (D.of_int (pos nsec)) (D.lit 1000000 0)))

  abbrev float_of : ℕ → F.T
  float_of n = F.of_int (pos n)

  abbrev same : F.T → F.T → Bool
  same a b = F.leb a b && F.leb b a

  -- `msg_position`
  pub msg_position : ℕ → D.T → ℕ → F.T
  msg_position period timestamp_s begin_ms =
      let in_round = R.fmod (D.mul timestamp_s (D.lit 1000 0)) (D.of_int (pos period)) in
      let x = R.narrow (D.sub in_round (D.of_int (pos begin_ms))) in
      if F.ltb x (F.lit 0 0) then F.add x (float_of period) else x

  -- `slot_difference`
  pub slot_difference : ℕ → ℕ → ℕ → F.T
  slot_difference num_nodes mine sender =
      let d = F.sub (float_of sender) (float_of mine) in
      let last = F.of_int (sub_ℕ num_nodes 1) in
      if same d last
      then F.of_int (negsuc 0)
      else (if same (F.sub (F.lit 0 0) d) last then F.lit 1 0 else d)

  -- `ideal_slot_init`
  pub ideal_slot_init : Sync F.T → F.T → F.T
  ideal_slot_init s d =
      if same d (F.lit 1 0)
      then float_of s.end_ms
      else (if same d (F.of_int (negsuc 0))
          then F.sub (float_of s.begin_ms) (float_of (width s))
          else F.add (F.add (float_of s.begin_ms) (F.mul d (float_of (width s))))
              (float_of s.period))

  -- while (delay_ms < 0) delay_ms += g_round_period_ms, on fuel
  pub raise : ℕ → F.T → F.T → F.T
  raise zero period x = x
  raise (suc n) period x =
      let more = raise n period (F.add x period) in if F.ltb x (F.lit 0 0) then more else x

  -- what follows the loop
  pub wrap_delay : F.T → F.T → F.T
  wrap_delay period x =
      let r = R.fmodf x period in if F.ltb (F.div period (F.lit 2 0)) r then F.sub r period else r

  -- `compute_delay` at the time sec, nsec
  pub compute_delay : ℕ → Sync F.T → ℕ → D.T → ℕ → ℕ → ℕ → F.T
  compute_delay fuel s sender timestamp_s begin_ms sec nsec =
      let position = msg_position s.period timestamp_s begin_ms in
      let ideal = ideal_slot_init s (slot_difference s.num_nodes s.slot_id sender) in
      let now = R.narrow (current_round_time_ms s.period sec nsec) in
      let delay = F.sub (F.sub now position) ideal in
      wrap_delay (float_of s.period) (raise fuel (float_of s.period) delay)

  -- `sync_record_delay`
  unfoldable pub sync_record_delay : ℕ → Sync F.T → ℕ → D.T → ℕ → ℕ → ℕ → Sync F.T
  sync_record_delay fuel s sender timestamp_s begin_ms sec nsec =
      record_delay s (compute_delay fuel s sender timestamp_s begin_ms sec nsec) sender
