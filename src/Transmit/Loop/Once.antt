-- ===== src/Transmit/Loop/Once.antt =====
-- The rounds in which `tx_loop` sends.
use routing_mesh.Prelude.{
  ℕ, subst, ◌⊎◌, ◌+◌, ◌-◌, ◌*◌, ◌/◌, ◌%◌, ◌^◌, ◌≤◌, ◌<◌, ◌≡◌, refl, sym, ◌∙◌, inl, inr, true, false,
  ◌||◌, List, [], ◌∷◌, Option, none, some, arith, ltb, ◌==◌, if◌then◌else◌, has, Bool-cases,
  ℕ_discrete,
}
use native.Mathlib.Nat.{div-mul-le_self, le-div_iff_mul-le, div-le_self, div-div-eq-div-mul}
use routing_mesh.Prelude.Float.{Float}
use routing_mesh.Sync.{in_slot}
use routing_mesh.Matrix.Wire.{Layout}
use routing_mesh.Matrix.Update.Rising.{Apart}
use routing_mesh.Frame.{Processor}
use routing_mesh.Transmit.{may_send}
use routing_mesh.Transmit.Slot.{Tx, tx_slot}
use routing_mesh.Transmit.Loop.{
  startup_grace_us, Turn, Control, Report, wait, turn_from, turn, tx_loop, tx_loop_start,
}

abbrev pub round_of : ℕ → ℕ → ℕ
round_of rp_ms t = t / (rp_ms * 1000)

-- the round of a turn that sent, in front of the others
abbrev in_front : {A : Type 0} → Option A → ℕ → List ℕ → List ℕ
in_front none round rest = rest
in_front (some a) round rest = round ∷ rest

-- the rounds of the turns that sent a beacon
pub sent_rounds : {F : Float} → ℕ → List (Report F) → List ℕ
sent_rounds rp_ms [] = []
sent_rounds rp_ms (r ∷ rs) = in_front r.sent (round_of rp_ms r.at) (sent_rounds rp_ms rs)

-- the rounds of the turns that were in the slot
pub slot_rounds : {F : Float} → ℕ → List (Report F) → List ℕ
slot_rounds rp_ms [] = []
slot_rounds rp_ms (r ∷ rs) =
    let rest = slot_rounds rp_ms rs in
    if in_slot r.sync r.at rp_ms then round_of rp_ms r.at ∷ rest else rest

-- a clock of 64 bits that does not go back behind t
unfoldable pub Ascending : {D F : Float} → ℕ → List (Turn D F) → Type 0
Ascending t [] = Unit
Ascending t (i ∷ is) = (t ≤ i.now) × (i.now < 2 ^ 64) × Ascending i.now is

round_of_mono : (p s t : ℕ) → 0 < p → s ≤ t → round_of p s ≤ round_of p t
round_of_mono p s t pos h =
    (le-div_iff_mul-le {k = p * 1000} {x = s / (p * 1000)} {y = t} (omega (arith, pos))).1
      (omega (arith, div-mul-le_self s (p * 1000), h))

has-in_front :
    {A : Type 0} (o : Option A) (x round : ℕ) (rest : List ℕ)
    → (round == x) ≡ false
    → has x rest ≡ false
    → has x (in_front o round rest) ≡ false
has-in_front none x round rest h k = k
has-in_front (some a) x round rest h k = ground (arith, h, k)

-- a round of the clock is not (uint64_t)-1
round_of-other : (p t : ℕ) → t < 2 ^ 64 → (round_of p t == 2 ^ 64 - 1) ≡ false
round_of-other p t h =
    let le : round_of p t < 2 ^ 64 - 1 =
      omega (arith, div-div-eq-div-mul t p 1000, div-le_self t p, h) in
    ground (arith, le)

-- the rounds sent and the rounds in the slot behind a turn, with the last round sent; no round below b is sent again
abbrev Good : ℕ → ℕ → List ℕ → List ℕ → Type 0
Good b last sent inside =
    Apart sent
    × ((x : ℕ) → x < b → has x sent ≡ false)
    × ((x : ℕ) → (has x sent || x == last) ≡ (has x inside || x == last))

-- at the time t: the last round sent is not after it, or no beacon has been sent
abbrev Ready : ℕ → ℕ → ℕ → ℕ → Type 0
Ready p b last t = (b ≡ last + 1) × (last ≤ round_of p t) ⊎ (b ≡ 0) × (last ≡ 2 ^ 64 - 1)

Ready-later : (p b last s t : ℕ) → 0 < p → s ≤ t → Ready p b last s → Ready p b last t
Ready-later p b last s t pos h (inl (e, k)) = inl (e, omega (arith, k, round_of_mono p s t pos h))
Ready-later p b last s t pos h (inr fresh) = inr fresh

Ready-bound :
    (p b last t : ℕ) → Ready p b last t → (round_of p t == last) ≡ false → b ≤ round_of p t
Ready-bound p b last t (inl (e, k)) new = ground (arith, e, k, new)
Ready-bound p b last t (inr (e, k)) new = omega (arith, e)

Good-sent :
    (b last round : ℕ) (sent inside : List ℕ)
    → b ≤ round
    → Good (round + 1) round sent inside
    → Good b last (round ∷ sent) (round ∷ inside)
unfolding Apart
Good-sent b last round sent inside h (apart, low, same) = (
  (low round (omega arith), apart),
  λ x lt. ground (arith, low x (omega (arith, h, lt))),
  λ x. ground (arith, same x),
)

Good-again :
    (b last round : ℕ) (sent inside : List ℕ)
    → (round == last) ≡ true
    → Good b last sent inside
    → Good b last sent (round ∷ inside)
Good-again b last round sent inside e (apart, low, same) =
    (apart, low, λ x. ground (arith, e, same x))

module _ {D F : Float} (proc : Processor D.T) (l : Layout D.T) (fuel me num_nodes rp_ms : ℕ)
    (start_time : ℕ) where
  wait-last :
      (i : Turn D F) (s : Control D F)
      → (wait proc l fuel me num_nodes rp_ms start_time i s).last_tx_round ≡ s.last_tx_round
  unfolding wait
  wait-last i s = elim (Bool-cases (in_slot s.tx.sync i.now rp_ms)) [
    | inl inside ↦ rw inside refl
    | inr outside ↦ rw outside (elim (Bool-cases (round_of rp_ms i.now == s.last_round)) [
      | inl old ↦ rw old refl
      | inr new ↦
          rw new
            (elim (Bool-cases
              (ltb ((i.grace_now + 2 ^ 64 - start_time) % 2 ^ 64) startup_grace_us)) [
                | inl early ↦ rw early refl
                | inr late ↦ rw late refl
              ])
    ])
  ]

  -- the state with what the other threads have done
  abbrev ready : Turn D F → Control D F → Control D F
  ready i s = record s { tx = i.meanwhile s.tx }

  abbrev report : Turn D F → Control D F → Option (List ℕ × List ℕ) → Report F
  report i s sent = record { at = i.now; sync = (ready i s).tx.sync; sent = sent }

  abbrev step : Turn D F → Control D F → Control D F × Report F
  step = turn proc l fuel me num_nodes rp_ms start_time

  turn-outside :
      (i : Turn D F) (s : Control D F)
      → in_slot (ready i s).tx.sync i.now rp_ms ≡ false
      → step i s ≡ (wait proc l fuel me num_nodes rp_ms start_time i (ready i s), report i s none)
  unfolding turn turn_from may_send
  turn-outside i s out = rw out refl

  turn-again :
      (i : Turn D F) (s : Control D F)
      → in_slot (ready i s).tx.sync i.now rp_ms ≡ true
      → (round_of rp_ms i.now == s.last_tx_round) ≡ true
      → step i s ≡ (wait proc l fuel me num_nodes rp_ms start_time i (ready i s), report i s none)
  unfolding turn turn_from may_send
  turn-again i s inside old = rw (inside, old) refl

  turn-sends :
      (i : Turn D F) (s : Control D F)
      → in_slot (ready i s).tx.sync i.now rp_ms ≡ true
      → (round_of rp_ms i.now == s.last_tx_round) ≡ false
      → let (tx, dests, bytes) =
          tx_slot proc l i.env fuel me num_nodes i.rand i.now i.epoch (i.meanwhile s.tx) in
        step i s ≡ (
          record (ready i s) { tx = tx; last_tx_round = round_of rp_ms i.now },
          report i s (some (dests, bytes)),
        )
  unfolding turn turn_from may_send
  turn-sends i s inside new = rw (inside, new) refl

  -- the rounds of the turns from a state
  abbrev GoodFrom : ℕ → List (Turn D F) → Control D F → Type 0
  GoodFrom b is s =
      let rs = tx_loop proc l fuel me num_nodes rp_ms start_time is s in
      Good b s.last_tx_round (sent_rounds rp_ms rs) (slot_rounds rp_ms rs)

  once_from :
      (is : List (Turn D F)) (s : Control D F) (b t : ℕ)
      → 0 < rp_ms
      → Ascending t is
      → Ready rp_ms b s.last_tx_round t
      → GoodFrom b is s
  unfolding tx_loop Ascending sent_rounds slot_rounds Apart
  once_from [] s b t pos asc able = (tt, λ x lt. refl, λ x. refl)
  once_from (i ∷ is) s b t pos (le, small, asc) able =
      let waited = wait proc l fuel me num_nodes rp_ms start_time i (ready i s) in
      let now_able = Ready-later rp_ms b s.last_tx_round t i.now pos le able in
      let waited = wait proc l fuel me num_nodes rp_ms start_time i (ready i s) in
      let last = wait-last i (ready i s) in
      let round = round_of rp_ms i.now in
      let rs = tx_loop proc l fuel me num_nodes rp_ms start_time is waited in
      let later =
        subst (λ k. Good b k (sent_rounds rp_ms rs) (slot_rounds rp_ms rs)) last
          (once_from is waited b i.now pos asc
            (subst (λ k. Ready rp_ms b k i.now) (sym last) now_able)) in
      elim (Bool-cases (in_slot (ready i s).tx.sync i.now rp_ms)) [
        | inr outside ↦ rw (turn-outside i s outside, outside) later
        | inl inside ↦ elim (Bool-cases (round == s.last_tx_round)) [
          | inl old ↦
              rw (turn-again i s inside old, inside)
                (Good-again b s.last_tx_round round (sent_rounds rp_ms rs) (slot_rounds rp_ms rs)
                  old later)
          | inr new ↦
              rw (turn-sends i s inside new, inside)
                (Good-sent b s.last_tx_round round _ _
                  (Ready-bound rp_ms b s.last_tx_round i.now now_able new)
                  (once_from is _ (round + 1) i.now pos asc (inl (refl, omega arith))))
        ]
      ]

  never_last :
      (is : List (Turn D F)) (s : Control D F) (t : ℕ)
      → Ascending t is
      → let rs = tx_loop proc l fuel me num_nodes rp_ms start_time is s in
        (has (2 ^ 64 - 1) (sent_rounds rp_ms rs) ≡ false)
        × (has (2 ^ 64 - 1) (slot_rounds rp_ms rs) ≡ false)
  unfolding tx_loop turn Ascending sent_rounds slot_rounds
  never_last [] s t asc = (refl, refl)
  never_last (i ∷ is) s t (le, small, asc) =
      let (sent, inside) = never_last is (step i s).0 i.now asc in
      let other = round_of-other rp_ms i.now small in
      (
        has-in_front (step i s).1.sent (2 ^ 64 - 1) (round_of rp_ms i.now) _ other sent,
        ground (arith, inside, other),
      )

  -- On a clock of 64 bits that does not go back, whatever the other threads do between the turns: from the start of
  -- tx_loop, no two beacons are sent in the same round, and the rounds in which a beacon is sent are exactly those with a
  -- turn in the slot.
  pub sends_once :
      (is : List (Turn D F)) (tx : Tx D F)
      → 0 < rp_ms
      → Ascending 0 is
      → let rs = tx_loop proc l fuel me num_nodes rp_ms start_time is (tx_loop_start tx) in
        Apart (sent_rounds rp_ms rs)
        × ((x : ℕ) → has x (sent_rounds rp_ms rs) ≡ has x (slot_rounds rp_ms rs))
  unfolding tx_loop_start
  sends_once is tx pos asc =
      let (apart, low, same) = once_from is (tx_loop_start tx) 0 0 pos asc (inr (refl, refl)) in
      let (sent, inside) = never_last is (tx_loop_start tx) 0 asc in
      (
        apart,
        λ x. elim (ℕ_discrete x (2 ^ 64 - 1)) [
          | yes e ↦ rw e (sent ∙ sym inside)
          | no other ↦ ground (arith, same x)
        ],
      )
