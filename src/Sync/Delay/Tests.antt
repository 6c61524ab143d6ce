-- ===== src/Sync/Delay/Tests.antt =====
-- A beacon of the next of three nodes, with whole milliseconds for both formats.
use routing_mesh.Prelude.{◌+◌, ◌*◌, ◌/◌, ◌^◌, ◌≡◌, refl, []}
use routing_mesh.Prelude.Int.{ℤ, pos, pos_part, neg_part, sub_ℕ, ◌+ℤ◌, ◌-ℤ◌, ltb_ℤ, leb_ℤ, rem_ℤ}
use routing_mesh.Prelude.Float.{Float}
use routing_mesh.Sync.{Sync}
use routing_mesh.Sync.Delay.{
  Rounding, raise, wrap_delay, compute_delay, msg_position, ideal_slot_init, slot_difference,
  current_round_time_ms,
}

abbrev whole : Float
whole = record {
  T = ℤ;
  add = λ a b. a +ℤ b;
  sub = λ a b. a -ℤ b;
  mul = λ a b.
      sub_ℕ (pos_part a * pos_part b + neg_part a * neg_part b)
        (pos_part a * neg_part b + neg_part a * pos_part b);
  div = λ a b. sub_ℕ (pos_part a / pos_part b) (neg_part a / pos_part b);
  ltb = ltb_ℤ;
  leb = leb_ℤ;
  of_int = λ a. a;
  to_int = λ a. a;
  lit = λ m k. pos (m / 10 ^ k);
}

abbrev rounding : Rounding whole whole
rounding = record {
  fmod = λ a b. rem_ℤ a (pos_part b);
  fmodf = λ a b. rem_ℤ a (pos_part b);
  narrow = λ a. a;
}

abbrev second : Sync ℤ
second = record {
  slot_id = 2;
  num_nodes = 3;
  period = 150;
  begin_ms = 50;
  end_ms = 100;
  delays = [];
  stable_rounds = 0;
  init_us = 0;
}

-- sent at 4.000 s, at the beginning of the slot of node 3, and received at 4.020 s
abbrev raw : ℤ
raw =
    current_round_time_ms whole whole rounding 150 4 20000000
    -ℤ msg_position whole whole rounding 150 (pos 4) 100
    -ℤ ideal_slot_init whole whole rounding second (slot_difference whole whole rounding 3 2 3)

late : compute_delay whole whole rounding 1 second 3 (pos 4) 100 4 20000000 ≡ pos 20
unfolding compute_delay current_round_time_ms msg_position ideal_slot_init slot_difference raise
    wrap_delay ◌-ℤ◌ ◌+ℤ◌
late = refl
