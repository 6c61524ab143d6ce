-- ===== src/Sync/Tests.antt =====
-- Runs of the slot adjustment, and the theorems at concrete inputs. The float format is a decimal
-- fixed point with four places.
use routing_mesh.Prelude.{
  ℕ, ◌+◌, ◌-◌, ◌*◌, ◌/◌, ◌^◌, ◌≤◌, ◌≡◌, ◌↔◌, refl, List, [], ◌∷◌, true, arith, ltb, leb, for_up,
}
use routing_mesh.Prelude.Int.{◌+ℤ◌, pos, pos_part}
use routing_mesh.Prelude.Float.{Float}
use routing_mesh.Sync.{
  Sync, init, within, shift_slot, check_limits, max_delay, max_step, group, compute_mean, sum,
  max_move, jitter, limit, apply_shift, move_slot, adjust_delays, adjust_from, adjust_slot,
  data_plane_ready,
}
use routing_mesh.Sync.Slot.{IsValid, slots_partition}
use routing_mesh.Sync.Adjust.{Rounds, Adjusted, adjust_slot-Moved}
use routing_mesh.Sync.Gate.{rounds, gate_opens, IsQuiet}

abbrev pub fixed : Float
fixed = record {
  T = ℕ;
  add = λ a b. a + b;
  sub = λ a b. a - b;
  mul = λ a b. a * b / 10000;
  div = λ a b. a * 10000 / b;
  ltb = ltb;
  leb = leb;
  of_int = λ a. pos_part a * 10000;
  to_int = λ a. pos (a / 10000);
  lit = λ m k. m * 10000 / 10 ^ k;
}

scaled_le : (d x : ℕ) → x ≤ 10000 → d * 10000 * x / 10000 / 10000 ≤ d
scaled_le d x h = let e : d * 10000 * x ≤ d * 10000 * 10000 = grind arith in omega (arith, e)

pub fixed-Rounds : Rounds fixed fixed
unfolding jitter
fixed-Rounds = record {
  tenth = λ w h. (1000 * (w * 10000) / 10000 / 10000, refl, omega arith);
  factor = λ d r h k. (
    d * 10000 * (8000 + 2000 * (r * 10000 * 100 / 10000) / 10000) / 10000 / 10000,
    refl,
    scaled_le d (8000 + 2000 * (r * 10000 * 100 / 10000) / 10000) (omega arith),
  );
}

abbrev pub blank : Sync ℕ
blank = record {
  slot_id = 0;
  num_nodes = 0;
  period = 0;
  begin_ms = 0;
  end_ms = 0;
  delays = [];
  stable_rounds = 0;
  init_us = 0;
}

-- node 3 of 3, with slots of 50 ms: the last slot of the frame, from 100 ms to its end
abbrev third : Sync ℕ
third = record blank {
  slot_id = 3;
  num_nodes = 3;
  period = 150;
  begin_ms = 100;
  end_ms = 0;
  init_us = 7;
}

init-third : init blank 3 3 150 7 ≡ third
unfolding init
init-third = refl

third-IsValid : IsValid third
third-IsValid = omega arith

-- Two beacons of node 1 came 20 ms and 30 ms late, and one of node 2 came 2 ms late.
abbrev late : List (ℕ × ℕ)
late = (200000, 1) ∷ (300000, 1) ∷ (20000, 2) ∷ []

max_delay-late : max_delay fixed fixed late ≡ 25
unfolding max_delay group compute_mean sum for_up
max_delay-late = refl

-- The move is limited to a tenth of the width, 5 ms, of which the random factor leaves 4.
adjust_slot-late :
    adjust_slot fixed fixed (record third { delays = late }) 50
    ≡ record third { begin_ms = 104; end_ms = 4 }
unfolding adjust_slot adjust_from adjust_delays move_slot apply_shift limit max_move jitter
    shift_slot check_limits max_delay group compute_mean sum for_up ◌+ℤ◌
adjust_slot-late = refl

abbrev quiet : List (ℕ × ℕ)
quiet = (30000, 1) ∷ []

slots_partition_example : (within (init blank 3 3 150 7) 120 ≡ true) ↔ (◌≡◌ {A = ℕ} (120 / 50) 2)
slots_partition_example =
    slots_partition blank 2 3 50 120 7 (omega arith) (omega arith) (omega arith) (omega arith)
      (omega arith)

adjust_slot-Moved_example :
    Adjusted fixed fixed fixed-Rounds
      (record third { delays = late })
      late
      (adjust_slot fixed fixed (record third { delays = late }) 50)
adjust_slot-Moved_example =
    adjust_slot-Moved fixed fixed fixed-Rounds (record third { delays = late }) 50 (omega arith)
      (omega arith)

abbrev eight : List (List (ℕ × ℕ) × ℕ)
eight =
    (quiet, 1)
    ∷ (quiet, 2)
    ∷ (quiet, 3)
    ∷ (quiet, 4)
    ∷ (quiet, 5)
    ∷ (quiet, 6)
    ∷ (quiet, 7)
    ∷ (quiet, 8)
    ∷ []

max_delay-quiet : max_delay fixed fixed quiet ≡ 3
unfolding max_delay group compute_mean sum for_up max_step
max_delay-quiet = refl

quiet-IsQuiet : IsQuiet fixed fixed quiet
quiet-IsQuiet = (λ e. cc, omega (arith, max_delay-quiet))

gate_opens_example : data_plane_ready (rounds fixed fixed third eight) 8 ≡ true
gate_opens_example =
    gate_opens fixed fixed third eight 8 refl (q, (q, (q, (q, (q, (q, (q, (q, tt))))))))
  where
    q : IsQuiet fixed fixed quiet
    q = quiet-IsQuiet
