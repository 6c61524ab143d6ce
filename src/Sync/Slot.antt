-- ===== src/Sync/Slot.antt =====
-- The limits of the slot: what `sync_in_slot` accepts, and how the first slots share the frame.
use routing_mesh.Prelude.{refl, ℕ, suc, ◌+◌, ◌-◌, ◌*◌, ◌/◌, ◌%◌, ◌≤◌, ◌<◌, ◌≡◌, ◌↔◌, true, arith}
use native.Mathlib.Nat.{
  mod-eq_of_lt, mod-eq-sub-mod, div-mul-le_self, le-div_iff_mul-le, div-add-mod, mod-lt,
  mul-div_cancel_left, div-eq_of_lt-le,
}
use routing_mesh.Sync.{Sync, width, init, within}

-- What every operation keeps, once the slot is initialised with two nodes or more.
pub record IsValid {T : Type 0} (s : Sync T) : Type 0 where
  pub some_width : 0 < width s
  pub half : width s + width s ≤ s.period
  pub small : s.period < 65536
  pub begin_in : s.begin_ms < s.period
  pub end_at : s.end_ms ≡ (s.begin_ms + width s) % s.period

pub mod_below : (a p : ℕ) → a < p → a % p ≡ a
mod_below a p h = mod-eq_of_lt h

pub mod_above : (a p : ℕ) → p ≤ a → a < p + p → a % p ≡ a - p
mod_above a p h k =
    omega (arith, mod-eq-sub-mod {n = a} {m = p} h, mod_below (a - p) p (omega arith))

-- A time of the frame is in the slot exactly when it lies less than the width after the begin,
-- counted round the end of the frame.
pub within_iff :
    {T : Type 0} (s : Sync T) (t : ℕ)
    → IsValid s
    → t < s.period
    → (within s t ≡ true) ↔ ((t + s.period - s.begin_ms) % s.period < width s)
unfolding within
within_iff s t v h = ground (
  arith,
  mod_below (s.begin_ms + width s) s.period,
  mod_above (s.begin_ms + width s) s.period,
  mod_below (t + s.period - s.begin_ms) s.period,
  mod_above (t + s.period - s.begin_ms) s.period,
)

first_slot_fits : (k n w p : ℕ) → suc k ≤ n → w * n ≤ p → w * k + w ≤ p
first_slot_fits k n w p h e = grind arith

two_slots_fit : (n w p : ℕ) → 2 ≤ n → w * n ≤ p → w + w ≤ p
two_slots_fit n w p h e = grind arith

-- `sync_init` for slot k + 1 of n ≥ 2 nodes gives a valid slot, which begins after k widths, if the
-- frame has at least one millisecond for each node and fits 16 bits.
pub init-IsValid :
    {T : Type 0} (s : Sync T) (k n period now : ℕ)
    → 2 ≤ n
    → k < n
    → n ≤ period
    → period < 65536
    → IsValid (init s (suc k) n period now)
      × ((init s (suc k) n period now).begin_ms ≡ period / n * k)
unfolding init
init-IsValid s k n period now two lt some small =
    let w = period / n in
    let fit : w * k + w ≤ period = first_slot_fits k n w period lt (div-mul-le_self period n) in
    let half : w + w ≤ period = two_slots_fit n w period two (div-mul-le_self period n) in
    let pos : 0 < w =
      (le-div_iff_mul-le {k = n} {x = 1} {y = period} (omega arith)).1 (omega arith) in
    ground (arith, mod_below (w * k + w) period)

in_first_slot : (t w k : ℕ) → 0 < w → (t / w ≡ k) ↔ ((w * k ≤ t) × (t < w * k + w))
in_first_slot t w k h = (
  λ e. rw (← e) (omega (arith, div-add-mod t w, mod-lt t h)),
  λ e. div-eq_of_lt-le w (omega arith) (omega arith),
)

-- The slots that `sync_init` gives to n nodes share out the frame: each millisecond of a frame of
-- n * w, below 2 ^ 16, lies in the slot of exactly one of the n ≥ 2 nodes, the one whose number is
-- its quotient by w.
pub slots_partition :
    {T : Type 0} (s : Sync T) (k n w t now : ℕ)
    → 2 ≤ n
    → k < n
    → 0 < w
    → n * w < 65536
    → t < n * w
    → (within (init s (suc k) n (n * w) now) t ≡ true) ↔ (t / w ≡ k)
unfolding init
slots_partition s k n w t now two lt some small inside =
    let (v, b) = init-IsValid s k n (n * w) now two lt (grind arith) small in
    let wide : n * w / n ≡ w = mul-div_cancel_left w (omega arith) in
    ground (
      arith,
      within_iff (init s (suc k) n (n * w) now) t v inside,
      in_first_slot t w k some,
      first_slot_fits k n w (n * w),
      mod_below (t + n * w - w * k) (n * w),
      mod_above (t + n * w - w * k) (n * w),
    )

pub init-delays :
    {T : Type 0} (s : Sync T) (i n period now : ℕ) → (init s i n period now).delays ≡ s.delays
unfolding init
init-delays s i n period now = refl
