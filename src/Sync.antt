-- ===== src/Sync.antt =====
-- src/sync.c: the slot of the node in the TDMA frame, and how beacons move it. All times are
-- milliseconds within the frame unless a name says otherwise. The clock and `rand` are arguments.
pub mod Slot
pub mod Adjust
pub mod Gate
pub mod Delay
pub mod Tests
use routing_mesh.Prelude.{
  ℕ, zero, suc, ◌+◌, ◌-◌, ◌*◌, ◌/◌, ◌%◌, ◌^◌, List, [], ◌∷◌, ◌++◌, Bool, true, false, ◌&&◌, ◌||◌,
  ltb, leb, ◌==◌, if◌then◌else◌, length, upd, for_up,
}
use routing_mesh.Prelude.Int.{ℤ, pos, negsuc, ltb_ℤ, leb_ℤ, ◌+ℤ◌, rem_ℤ, to_u16, pos_part}
use routing_mesh.Prelude.Float.{Float}

abbrev pub max_nodes : ℕ
max_nodes = 20

abbrev pub pktdelay_array_size : ℕ
pktdelay_array_size = 64

abbrev pub deadband_ms : ℕ
deadband_ms = 4

abbrev pub needed_rounds : ℕ
needed_rounds = 8

abbrev pub converge_cap_ms : ℕ
converge_cap_ms = 90000

-- The file's static variables. `delays` holds g_delay_array and g_delay_sender, oldest first.
pub record Sync (T : Type 0) : Type 0 where
  pub slot_id : ℕ
  pub num_nodes : ℕ
  pub period : ℕ
  pub begin_ms : ℕ
  pub end_ms : ℕ
  pub delays : List (T × ℕ)
  pub stable_rounds : ℕ
  pub init_us : ℕ

-- `width_ms`, which the code computes afresh in each function
abbrev pub width : {T : Type 0} → Sync T → ℕ
width s = s.period / s.num_nodes

-- width * (slot_id - 1) as a uint16_t
first_begin : ℕ → ℕ → ℕ
first_begin width slot_id =
    if slot_id == 0 then (65536 - width) % 65536 else (width * (slot_id - 1)) % 65536

pub init : {T : Type 0} → Sync T → ℕ → ℕ → ℕ → ℕ → Sync T
unfolding first_begin
init s slot_id num_nodes period now_us =
    let b = first_begin (period / num_nodes) slot_id in
    record s {
      slot_id = slot_id;
      num_nodes = num_nodes;
      period = period;
      stable_rounds = 0;
      init_us = now_us;
      begin_ms = b;
      end_ms = ((b + period / num_nodes) % 65536) % period;
    }

-- The part of `sync_record_delay` behind `compute_delay`: a delay past the 64th is dropped.
pub record_delay : {T : Type 0} → Sync T → T → ℕ → Sync T
record_delay s delay sender =
    if ltb (length s.delays) pktdelay_array_size
    then record s { delays = s.delays ++ (delay, sender) ∷ [] }
    else s

pub shift_slot : {T : Type 0} → Sync T → ℤ → Sync T
shift_slot s delta =
    let b = to_u16 (rem_ℤ (pos s.begin_ms +ℤ delta +ℤ pos s.period) s.period) in
    record s { begin_ms = b; end_ms = ((b + width s) % s.period) % 65536 }

-- the check of the limits behind the shift
pub check_limits : {T : Type 0} → Sync T → Sync T
unfolding first_begin
check_limits s =
    if ltb s.period s.begin_ms || ltb s.period s.end_ms
    then (let b = first_begin (width s) s.slot_id % s.period in
        record s { begin_ms = b; end_ms = (b + width s) % s.period })
    else s

-- `if (delta == 0) return`, the shift and the check
pub apply_shift : {T : Type 0} → Sync T → ℤ → Sync T
apply_shift s d = if leb_ℤ d (pos 0) && leb_ℤ (pos 0) d then s else check_limits (shift_slot s d)

-- a round within the dead band
pub quiet_round : {T : Type 0} → Sync T → Sync T
quiet_round s =
    if ltb s.stable_rounds 1000000 then record s { stable_rounds = s.stable_rounds + 1 } else s

pub begin_us : {T : Type 0} → Sync T → ℕ → ℕ → ℕ
begin_us s now_us period = now_us - now_us % (period * 1000) + s.begin_ms * 1000

pub end_us : {T : Type 0} → Sync T → ℕ → ℕ → ℕ
end_us s now_us period = now_us - now_us % (period * 1000) + s.end_ms * 1000

-- `t_ms` of `sync_in_slot`
abbrev pub time_in_frame : ℕ → ℕ → ℕ
time_in_frame now_us period = ((now_us % (period * 1000)) / 1000) % 65536

pub within : {T : Type 0} → Sync T → ℕ → Bool
within s t =
    if leb s.begin_ms s.end_ms
    then leb s.begin_ms t && ltb t s.end_ms
    else leb s.begin_ms t || ltb t s.end_ms

pub in_slot : {T : Type 0} → Sync T → ℕ → ℕ → Bool
unfolding within
in_slot s now_us period = within s (time_in_frame now_us period)

pub is_stable : {T : Type 0} → Sync T → Bool
is_stable s = leb needed_rounds s.stable_rounds

pub data_plane_ready : {T : Type 0} → Sync T → ℕ → Bool
unfolding is_stable
data_plane_ready s now_us =
    if is_stable s
    then true
    else (if s.init_us == 0
        then false
        else leb (converge_cap_ms * 1000) ((now_us + 2 ^ 64 - s.init_us) % 2 ^ 64))

module _ (D F : Float) where
  open F use {T, add, mul, div, of_int, to_int, lit}

  -- `computeMean`
  sum : List T → T → T
  sum [] acc = acc
  sum (x ∷ xs) acc = sum xs (add acc x)

  pub compute_mean : List T → T
  unfolding sum
  compute_mean [] = of_int (pos 0)
  compute_mean (x ∷ xs) = div (sum (x ∷ xs) (of_int (pos 0))) (of_int (pos (length (x ∷ xs))))

  -- The delays of each node: row `sender - 1` of delayByNode up to its counter. A row is not empty
  -- exactly where isSender is set.
  pub group : (ℕ → List T) → List (T × ℕ) → ℕ → List T
  group rows [] = rows
  group rows ((d, sender) ∷ rest) =
      group
        (if sender == 0 || ltb max_nodes sender
          then rows
          else upd rows (sender - 1) (rows (sender - 1) ++ d ∷ []))
        rest

  -- one round of the loop for the maximum
  max_step : (ℕ → List T) → ℕ → ℕ → ℕ
  max_step rows nj delta = elim (rows nj) [
    | [] ↦ delta
    | x ∷ xs ↦
        let mean = to_int (compute_mean (x ∷ xs)) in
        if ltb_ℤ (pos delta) mean then pos_part mean else delta
  ]

  -- `delta`, before any limit: the largest mean delay of a node, and 0 if none is positive
  pub max_delay : List (T × ℕ) → ℕ
  unfolding max_step
  max_delay delays = for_up max_nodes 0 (max_step (group (λ _. []) delays)) 0

  -- `lim`: a tenth of the width, but at least 1
  pub max_move : {U : Type 0} → Sync U → ℤ
  max_move s =
      let lim = D.to_int (D.mul (D.lit 10 2) (D.of_int (pos (width s)))) in
      if ltb_ℤ lim (pos 1) then pos 1 else lim

  -- the random factor between 0.8 and 1, with `r` for `rand() % 101`
  pub jitter : ℤ → ℕ → ℤ
  jitter delta r =
      to_int (mul (of_int delta) (add (lit 8 1) (mul (lit 2 1) (mul (of_int (pos r)) (lit 1 2)))))

  limit : ℤ → ℤ → ℤ
  limit delta lim =
      let d = if ltb_ℤ lim delta then lim else delta in if ltb_ℤ d (pos 0) then pos 0 else d

  -- the part of `sync_adjust_slot` behind the dead band
  pub move_slot : Sync T → ℕ → ℕ → Sync T
  move_slot s delta r = apply_shift s (jitter (limit (pos delta) (max_move s)) r)

  pub adjust_delays : Sync T → ℕ → ℕ → Sync T
  adjust_delays s delta r =
      if leb delta deadband_ms
      then quiet_round s
      else move_slot (record s { stable_rounds = 0 }) delta r

  -- with the delays taken out of the shared array
  pub adjust_from : Sync T → List (T × ℕ) → ℕ → Sync T
  adjust_from s [] r = s
  adjust_from s (x ∷ xs) r = adjust_delays (record s { delays = [] }) (max_delay (x ∷ xs)) r

  pub adjust_slot : Sync T → ℕ → Sync T
  unfolding adjust_from
  adjust_slot s r = adjust_from s s.delays r
