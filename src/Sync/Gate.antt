-- ===== src/Sync/Gate.antt =====
-- When data traffic is admitted: `sync_is_stable` and `sync_data_plane_ready`.
use routing_mesh.Prelude.{
  ltb, inl, inr, Bool-cases, ℕ, suc, ◌+◌, ◌^◌, ◌≤◌, ◌<◌, ◌≡◌, ◌≢◌, ◌↔◌, refl, List, [], ◌∷◌, true,
  arith, length, length-append,
}
use routing_mesh.Prelude.Float.{Float}
use routing_mesh.Sync.Slot.{IsValid}
use routing_mesh.Sync.{
  Sync, deadband_ms, pktdelay_array_size, needed_rounds, record_delay, max_delay, quiet_round,
  apply_shift, shift_slot, check_limits, move_slot, adjust_delays, adjust_from, adjust_slot,
  data_plane_ready,
}

-- At most 64 delays are ever stored, so every index of the arrays is in range; the stored ones are
-- the first 64 of all that were recorded.
pub record_delay-bounded :
    {T : Type 0} (s : Sync T) (d : T) (sender : ℕ)
    → length s.delays ≤ pktdelay_array_size
    → length (record_delay s d sender).delays ≤ pktdelay_array_size
unfolding record_delay
record_delay-bounded s d sender h = ground (arith, length-append s.delays ((d, sender) ∷ []))

-- Recording a delay leaves the slot where it is.
pub record_delay-begin :
    {T : Type 0} (s : Sync T) (d : T) (sender : ℕ) → (record_delay s d sender).begin_ms ≡ s.begin_ms
unfolding record_delay
record_delay-begin s d sender = ground arith

move_slot-stable :
    (D F : Float) (s : Sync F.T) (delta r : ℕ)
    → (move_slot D F s delta r).stable_rounds ≡ s.stable_rounds
unfolding move_slot apply_shift check_limits shift_slot
move_slot-stable s delta r = ground arith

move_slot-init :
    (D F : Float) (s : Sync F.T) (delta r : ℕ) → (move_slot D F s delta r).init_us ≡ s.init_us
unfolding move_slot apply_shift check_limits shift_slot
move_slot-init s delta r = ground arith

module _ (D F : Float) where
  adjust_slot-init :
      (s : Sync F.T) (ds : List (F.T × ℕ)) (r : ℕ)
      → (adjust_slot D F (record s { delays = ds }) r).init_us ≡ s.init_us
  unfolding adjust_slot adjust_from adjust_delays quiet_round
  adjust_slot-init s [] r = refl
  adjust_slot-init s (d ∷ ds) r = ground (
    arith,
    move_slot-init D F (record s { delays = []; stable_rounds = 0 }) (max_delay D F (d ∷ ds)) r,
  )

  -- The rounds of the transmitter: the delays that were recorded before each adjustment, and its
  -- random number.
  pub rounds : Sync F.T → List (List (F.T × ℕ) × ℕ) → Sync F.T
  rounds s [] = s
  rounds s ((ds, r) ∷ rs) = rounds (adjust_slot D F (record s { delays = ds }) r) rs

  -- Some beacon was heard, and no node's mean delay is above the dead band.
  abbrev pub IsQuiet : List (F.T × ℕ) → Type 0
  IsQuiet ds = (ds ≢ []) × (max_delay D F ds ≤ deadband_ms)

  abbrev pub AllQuiet : List (List (F.T × ℕ) × ℕ) → Type 0
  AllQuiet [] = Unit
  AllQuiet ((ds, r) ∷ rs) = IsQuiet ds × AllQuiet rs

  quiet-stable :
      (s : Sync F.T) (ds : List (F.T × ℕ)) (r k : ℕ)
      → IsQuiet ds
      → k ≤ s.stable_rounds
      → k < 1000000
      → suc k ≤ (adjust_slot D F (record s { delays = ds }) r).stable_rounds
  unfolding adjust_slot adjust_from adjust_delays quiet_round
  quiet-stable s [] r k (some, q) h lt = absurd (some refl)
  quiet-stable s (d ∷ ds) r k (some, q) h lt = ground arith

  rounds-stable :
      (s : Sync F.T) (rs : List (List (F.T × ℕ) × ℕ)) (k : ℕ)
      → AllQuiet rs
      → k ≤ s.stable_rounds
      → k + length rs ≤ 1000000
      → k + length rs ≤ (rounds s rs).stable_rounds
  unfolding rounds
  rounds-stable s [] k q h lt = omega arith
  rounds-stable s ((ds, r) ∷ rs) k (q, qs) h lt = omega (
    arith,
    rounds-stable (adjust_slot D F (record s { delays = ds }) r) rs (suc k) qs
        (quiet-stable s ds r k q h (omega arith)) (omega arith),
  )

  -- After 8 rounds in a row in which beacons were heard and no node's mean delay was above the dead
  -- band, data traffic is admitted at any time, whatever state the rounds began in.
  pub gate_opens :
      (s : Sync F.T) (rs : List (List (F.T × ℕ) × ℕ)) (now : ℕ)
      → length rs ≡ needed_rounds
      → AllQuiet rs
      → data_plane_ready (rounds s rs) now ≡ true
  unfolding data_plane_ready
  gate_opens s rs now n q = ground (arith, rounds-stable s rs 0 q (omega arith) (omega arith))

  late_resets :
      (s : Sync F.T) (ds : List (F.T × ℕ)) (r : ℕ)
      → deadband_ms < max_delay D F ds
      → ds ≢ []
      → (adjust_slot D F (record s { delays = ds }) r).stable_rounds ≡ 0
  unfolding adjust_slot adjust_from adjust_delays
  late_resets s [] r late some = absurd (some refl)
  late_resets s (d ∷ ds) r late some = ground (
    arith,
    move_slot-stable D F (record s { delays = []; stable_rounds = 0 }) (max_delay D F (d ∷ ds)) r,
  )

  -- After a round with a node's mean delay above the dead band, data is admitted exactly when 90
  -- seconds have passed since `sync_init`, the clock not having gone back or wrapped.
  pub late_closes :
      (s : Sync F.T) (ds : List (F.T × ℕ)) (r now : ℕ)
      → ds ≢ []
      → deadband_ms < max_delay D F ds
      → 0 < s.init_us
      → s.init_us ≤ now
      → now < 2 ^ 64
      → (data_plane_ready (adjust_slot D F (record s { delays = ds }) r) now ≡ true)
        ↔ (s.init_us + 90000000 ≤ now)
  unfolding data_plane_ready
  late_closes s ds r now some late begun past fits =
      ground (arith, late_resets s ds r late some, adjust_slot-init s ds r)

-- A recorded delay leaves the slot as it is.
pub record_delay-IsValid :
    {T : Type 0} (s : Sync T) (d : T) (sender : ℕ) → IsValid s → IsValid (record_delay s d sender)
unfolding record_delay
record_delay-IsValid s d sender v = elim (Bool-cases (ltb (length s.delays) pktdelay_array_size)) [
  | inl room ↦
      rw (record_delay, room)
        (record {
          some_width = v.some_width;
          half = v.half;
          small = v.small;
          begin_in = v.begin_in;
          end_at = v.end_at;
        })
  | inr full ↦ rw (record_delay, full) v
]
