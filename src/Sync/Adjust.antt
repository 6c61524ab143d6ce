-- ===== src/Sync/Adjust.antt =====
-- `sync_adjust_slot`: how far the slot moves, and what stays.
use routing_mesh.Prelude.{
  ℕ, zero, suc, ◌+◌, ◌-◌, ◌*◌, ◌%◌, ◌≤◌, ◌<◌, ◌≡◌, refl, sym, ap, ◌∙◌, ◌⊎◌, inl, inr, List, [], ◌∷◌,
  arith, ltb, leb, Bool-cases,
}
use Prim.Native.Nat.{min}
use native.Mathlib.Nat.{mod-eq-sub-mod, mod-add-mod, mod-lt}
use routing_mesh.Prelude.Int.{ℤ, pos, pos-add}
use routing_mesh.Prelude.Float.{Float}
use routing_mesh.Sync.{
  Sync, width, deadband_ms, shift_slot, check_limits, max_delay, max_move, jitter, limit,
  apply_shift, quiet_round, move_slot, adjust_from, adjust_delays, adjust_slot,
}
use routing_mesh.Sync.Slot.{IsValid, mod_below, mod_above}

-- What the code relies on of the two formats: a tenth of a 16-bit number is not rounded up, and a
-- number of at most 16 bits times the random factor is at most that number.
pub record Rounds (D F : Float) : Type 0 where
  pub tenth :
      (w : ℕ)
      → w < 65536
      → (k : ℕ) × (D.to_int (D.mul (D.lit 10 2) (D.of_int (pos w))) ≡ pos k) × (k * 10 ≤ w)
  pub factor : (d r : ℕ) → d < 65536 → r ≤ 100 → (k : ℕ) × (jitter D F (pos d) r ≡ pos k) × (k ≤ d)

-- The slot has moved forward by m, round the end of the frame, and is as wide as before.
pub record Moved {T : Type 0} (s t : Sync T) (m : ℕ) : Type 0 where
  pub begin_moved : t.begin_ms ≡ (s.begin_ms + m) % s.period
  pub end_moved : t.end_ms ≡ (s.end_ms + m) % s.period
  pub same_period : t.period ≡ s.period
  pub same_nodes : t.num_nodes ≡ s.num_nodes
  pub still_valid : IsValid t

stay : {T : Type 0} (s : Sync T) → IsValid s → Moved s s 0
stay s v = ground (
  arith,
  mod_below s.begin_ms s.period,
  mod_below s.end_ms s.period,
  mod_below (s.begin_ms + width s) s.period,
  mod_above (s.begin_ms + width s) s.period,
)

shift_slot-pos :
    {T : Type 0} (s : Sync T) (m : ℕ)
    → shift_slot s (pos m) ≡ record s {
      begin_ms = ((s.begin_ms + m + s.period) % s.period) % 65536;
      end_ms = (((s.begin_ms + m + s.period) % s.period) % 65536 + width s) % s.period % 65536;
    }
unfolding shift_slot
shift_slot-pos s m = rw (pos-add, pos-add)

shifted_begin : (b m p : ℕ) → b < p → m < p → p < 65536 → ((b + m + p) % p) % 65536 ≡ (b + m) % p
shifted_begin b m p hb hm hp = ground (
  arith,
  mod_below (b + m) p,
  mod_above (b + m) p,
  mod_above (b + m + p) p,
  mod_above (b + m + p - p) p,
  mod-eq-sub-mod {n = b + m + p} {m = p},
)

mod_twice : (a b p : ℕ) → (a % p + b) % p ≡ (a + b) % p
mod_twice a b p = mod-add-mod a p b

check_limits-valid :
    {T : Type 0} (s : Sync T) → s.begin_ms < s.period → s.end_ms < s.period → check_limits s ≡ s
unfolding check_limits
check_limits-valid s h k = ground arith

abbrev moved : {T : Type 0} → Sync T → ℕ → Sync T
moved s m = record s {
  begin_ms = (s.begin_ms + m) % s.period;
  end_ms = ((s.begin_ms + m) % s.period + width s) % s.period;
}

shift_slot-moved :
    {T : Type 0} (s : Sync T) (m : ℕ) → IsValid s → m < s.period → shift_slot s (pos m) ≡ moved s m
shift_slot-moved s m v h =
    shift_slot-pos s m
    ∙ rw (
      shifted_begin s.begin_ms m s.period v.begin_in h v.small,
      mod_below (((s.begin_ms + m) % s.period + width s) % s.period) 65536 (
          omega (
            arith,
            mod-lt ((s.begin_ms + m) % s.period + width s) {m = s.period} (omega arith),
            v.small,
          )),
    )

end_follows : (b m w p e : ℕ) → e ≡ (b + w) % p → ((b + m) % p + w) % p ≡ (e + m) % p
end_follows b m w p e h =
    let swap : b + m + w ≡ b + w + m = omega arith in
    mod_twice (b + m) w p ∙ ap (λ k. k % p) swap ∙ sym (rw h (mod_twice (b + w) m p))

-- The slot that `shiftSlot` leaves passes the check of the limits: the reset never fires.
pub shift-Moved :
    {T : Type 0} (s : Sync T) (m : ℕ)
    → IsValid s
    → m < s.period
    → Moved s (check_limits (shift_slot s (pos m))) m
shift-Moved s m v h =
    let some : 0 < s.period = omega (arith, v.begin_in) in
    rw
      (
        shift_slot-moved s m v h,
        check_limits-valid (moved s m) (mod-lt (s.begin_ms + m) some)
            (mod-lt ((s.begin_ms + m) % s.period + width s) some),
      )
      (record {
        begin_moved = refl;
        end_moved = end_follows s.begin_ms m (width s) s.period s.end_ms v.end_at;
        same_period = refl;
        same_nodes = refl;
        still_valid = record {
          some_width = v.some_width;
          half = v.half;
          small = v.small;
          begin_in = mod-lt (s.begin_ms + m) some;
          end_at = refl;
        };
      })

apply_shift-suc :
    {T : Type 0} (s : Sync T) (m : ℕ)
    → apply_shift s (pos (suc m)) ≡ check_limits (shift_slot s (pos (suc m)))
unfolding apply_shift
apply_shift-suc s m = ground arith

apply_shift-zero : {T : Type 0} (s : Sync T) → apply_shift s (pos 0) ≡ s
unfolding apply_shift
apply_shift-zero s = ground arith

pub apply_shift-Moved :
    {T : Type 0} (s : Sync T) (m : ℕ) → IsValid s → m < s.period → Moved s (apply_shift s (pos m)) m
apply_shift-Moved s zero v h = rw (apply_shift-zero s) (stay s v)
apply_shift-Moved s (suc m) v h = rw (apply_shift-suc s m) (shift-Moved s (suc m) v h)

apply_shift-delays : {T : Type 0} (s : Sync T) (d : ℤ) → (apply_shift s d).delays ≡ s.delays
unfolding apply_shift check_limits shift_slot
apply_shift-delays s d = ground arith

-- The two fields that `sync_adjust_slot` changes besides have no part in where the slot lies.
from_cleared :
    {T : Type 0} (s t : Sync T) (ds : List (T × ℕ)) (n m : ℕ)
    → Moved (record s { delays = ds; stable_rounds = n }) t m
    → Moved s t m
from_cleared s t ds n m v = record {
  begin_moved = v.begin_moved;
  end_moved = v.end_moved;
  same_period = v.same_period;
  same_nodes = v.same_nodes;
  still_valid = v.still_valid;
}

cleared-IsValid :
    {T : Type 0} (s : Sync T) (ds : List (T × ℕ)) (n : ℕ)
    → IsValid s
    → IsValid (record s { delays = ds; stable_rounds = n })
cleared-IsValid s ds n v = record {
  some_width = v.some_width;
  half = v.half;
  small = v.small;
  begin_in = v.begin_in;
  end_at = v.end_at;
}

stay_cleared :
    {T : Type 0} (s : Sync T) (ds : List (T × ℕ)) (n : ℕ)
    → IsValid s
    → Moved s (record s { delays = ds; stable_rounds = n }) 0
stay_cleared s ds n v =
    from_cleared s _ ds n 0
      (stay (record s { delays = ds; stable_rounds = n }) (cleared-IsValid s ds n v))

module _ (D F : Float) (laws : Rounds D F) where
  abbrev pub Bounded : {T : Type 0} → Sync T → ℕ → Type 0
  Bounded s m = (m ≤ 1) ⊎ (m * 10 ≤ width s)

  max_move-pos :
      {T : Type 0} (s : Sync T)
      → width s < 65536
      → (k : ℕ) × (max_move D F s ≡ pos k) × (0 < k) × Bounded s k
  unfolding max_move
  max_move-pos s h =
      let (k, e, le) = laws.tenth (width s) h in
      elim (Bool-cases (ltb k 1)) [
        | inl low ↦ (1, ground arith, omega arith, inl (omega arith))
        | inr high ↦ (k, ground arith, ground arith, inr le)
      ]

  limit-pos : (d k : ℕ) → limit D F (pos d) (pos k) ≡ pos (min d k)
  unfolding limit
  limit-pos d k = ground arith

  -- Behind the dead band the slot moves forward by at most a tenth of its width, or 1 ms.
  move_slot-Moved :
      (s : Sync F.T) (delta r : ℕ)
      → IsValid s
      → r ≤ 100
      → (m : ℕ) × Moved s (move_slot D F s delta r) m × Bounded s m
  unfolding move_slot
  move_slot-Moved s delta r v h =
      let (k, e, some, bound) = max_move-pos s (omega arith) in
      let (m, j, le) = laws.factor (min delta k) r (omega arith) h in
      (m, rw (e, limit-pos, j) (apply_shift-Moved s m v (omega arith)), ground arith)

  abbrev pub Adjusted : Sync F.T → List (F.T × ℕ) → Sync F.T → Type 0
  Adjusted s ds t =
      (m : ℕ) × Moved s t m
      × Bounded s m
      × (max_delay D F ds ≤ deadband_ms → m ≡ 0)
      × (t.delays ≡ [])

  adjust_quiet :
      (s : Sync F.T) (ds : List (F.T × ℕ)) (r : ℕ)
      → IsValid s
      → Adjusted s ds (quiet_round (record s { delays = [] }))
  unfolding quiet_round
  adjust_quiet s ds r v = elim (Bool-cases (ltb s.stable_rounds 1000000)) [
    | inl more ↦ (
      0,
      rw more (stay_cleared s [] (s.stable_rounds + 1) v),
      inl (omega arith),
      λ _. refl,
      rw more,
    )
    | inr full ↦
        (0, rw full (stay_cleared s [] s.stable_rounds v), inl (omega arith), λ _. refl, rw full)
  ]

  adjust_late :
      (s : Sync F.T) (ds : List (F.T × ℕ)) (r : ℕ)
      → IsValid s
      → r ≤ 100
      → deadband_ms < max_delay D F ds
      → Adjusted s ds
          (move_slot D F (record s { delays = []; stable_rounds = 0 }) (max_delay D F ds) r)
  unfolding move_slot
  adjust_late s ds r v h late =
      let s' : Sync F.T = record s { delays = []; stable_rounds = 0 } in
      let (m, moved, bound) =
        move_slot-Moved s' (max_delay D F ds) r (cleared-IsValid s [] 0 v) h in
      (m, from_cleared s _ [] 0 m moved, bound, λ le. absurd (omega arith), apply_shift-delays s' _)

  adjust_from-Adjusted :
      (s : Sync F.T) (ds : List (F.T × ℕ)) (r : ℕ)
      → s.delays ≡ ds
      → IsValid s
      → r ≤ 100
      → Adjusted s ds (adjust_from D F s ds r)
  unfolding adjust_from adjust_delays
  adjust_from-Adjusted s [] r e v h = (0, stay s v, inl (omega arith), λ _. refl, e)
  adjust_from-Adjusted s (d ∷ ds) r e v h =
      elim (Bool-cases (leb (max_delay D F (d ∷ ds)) deadband_ms)) [
        | inl quiet ↦ rw quiet (adjust_quiet s (d ∷ ds) r v)
        | inr late ↦ rw late (adjust_late s (d ∷ ds) r v h (ground arith))
      ]

  -- `sync_adjust_slot` on a valid slot, for every set of recorded delays and every random number:
  -- the slot keeps its width and moves forward, by at most a tenth of its width or 1 ms, and not at
  -- all while no node has a mean delay above the dead band; the recorded delays are used up.
  pub adjust_slot-Moved :
      (s : Sync F.T) (r : ℕ) → IsValid s → r ≤ 100 → Adjusted s s.delays (adjust_slot D F s r)
  unfolding adjust_slot
  adjust_slot-Moved s r v h = adjust_from-Adjusted s s.delays r refl v h
