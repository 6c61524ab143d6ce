-- ===== src/Transmit/Data/Ends.antt =====
-- The loop ends.
use routing_mesh.Prelude.{
  ℕ, zero, suc, ◌+◌, ◌≤◌, ◌≡◌, refl, subst, Bool, true, false, Option, none, some, arith,
}
use routing_mesh.Frame.{Processor}
use routing_mesh.TxQueue.{Pkt, TxQueue}
use routing_mesh.Transmit.Data.{
  Env, Data, Outcome, finished, again, send_packet, from_pop, data_round, data_loop, and_then,
}

abbrev pub is_finished : Outcome → Bool
is_finished (finished s) = true
is_finished (again s) = false

first_ends :
    (o : Outcome) (later : Data → Outcome)
    → is_finished o ≡ true
    → is_finished (and_then o later) ≡ true
unfolding and_then
first_ends (finished t) later h = refl
first_ends (again t) later h = absurd (ground (arith, h))

later_ends :
    (o : Outcome) (later : Data → Outcome)
    → ((t : Data) → is_finished (later t) ≡ true)
    → is_finished (and_then o later) ≡ true
unfolding and_then
later_ends (finished t) later h = refl
later_ends (again t) later h = h t

-- two continuations that agree where the first ends
same_end :
    (o : Outcome) (f g : Data → Outcome)
    → ((t : Data) → is_finished (f t) ≡ true → g t ≡ f t)
    → is_finished (and_then o f) ≡ true
    → and_then o g ≡ and_then o f
unfolding and_then
same_end (finished t) f g h e = refl
same_end (again t) f g h e = h t e

module _ {D T : Type 0} (proc : Processor D) (env : Env D T) (slot_end me : ℕ) where
  late_ends :
      (i : ℕ) (s : Data) (o : Option Pkt × TxQueue)
      → slot_end ≤ env.clock i
      → is_finished (from_pop proc env slot_end me i s o) ≡ true
  unfolding from_pop send_packet
  late_ends i s (none, q) h = refl
  late_ends i s (some p, q) h = ground (arith, h)

  ends_by :
      (n i : ℕ) (s : Data)
      → slot_end ≤ env.clock (i + n)
      → is_finished (data_loop proc env slot_end me (suc n) i s) ≡ true
  unfolding data_loop data_round
  ends_by zero i s h =
      first_ends (data_round proc env slot_end me i s) _
        (late_ends i s _ (subst (λ j. slot_end ≤ env.clock j) (omega arith) h))
  ends_by (suc n) i s h =
      later_ends (data_round proc env slot_end me i s) _
        (λ t. ends_by n (i + 1) t (subst (λ j. slot_end ≤ env.clock j) (omega arith) h))

  more_fuel :
      (n k i : ℕ) (s : Data)
      → is_finished (data_loop proc env slot_end me n i s) ≡ true
      → data_loop proc env slot_end me (n + k) i s ≡ data_loop proc env slot_end me n i s
  unfolding data_loop
  more_fuel zero k i s h = absurd (ground (arith, h))
  more_fuel (suc n) k i s h =
      let e : suc n + k ≡ suc (n + k) = omega arith in
      rw e (
        same_end (data_round proc env slot_end me i s) (data_loop proc env slot_end me n (i + 1))
          (data_loop proc env slot_end me (n + k) (i + 1)) (λ t. more_fuel n k (i + 1) t) h)

  -- Whatever packets keep arriving: once the clock has reached the end of the slot at round n, the loop has ended by
  -- itself within n + 1 rounds, and more rounds change nothing.
  pub data_loop_ends :
      (n : ℕ) (s : Data)
      → slot_end ≤ env.clock n
      → (is_finished (data_loop proc env slot_end me (n + 1) 0 s) ≡ true)
        × ((k : ℕ)
            → data_loop proc env slot_end me (n + 1 + k) 0 s
              ≡ data_loop proc env slot_end me (n + 1) 0 s)
  data_loop_ends n s h =
      let e : n + 1 ≡ suc n = omega arith in
      let done : is_finished (data_loop proc env slot_end me (n + 1) 0 s) ≡ true =
        rw e (ends_by n 0 s (subst (λ j. slot_end ≤ env.clock j) (omega arith) h)) in
      (done, λ k. more_fuel (n + 1) k 0 s done)
