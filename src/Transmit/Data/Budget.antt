-- ===== src/Transmit/Data/Budget.antt =====
-- The bytes of one slot.
use routing_mesh.Prelude.{
  ℕ, zero, suc, ◌+◌, ◌≤◌, ◌≡◌, refl, inl, inr, Option, none, some, List, [], ◌∷◌, ◌++◌, arith, ◌==◌,
  Bool-cases, length, take,
}
use routing_mesh.Frame.{Processor, frame}
use routing_mesh.Frame.RoundTrip.{length-frame}
use routing_mesh.TxQueue.{Pkt, TxQueue, pop}
use routing_mesh.TxQueue.Order.{push_all}
use routing_mesh.Transmit.Data.{
  Env, Data, from_pop, data_round, data_loop, push_back, numbered, after_send, header_of,
  message_of, max_bytes_slot,
}
use routing_mesh.Transmit.Data.Cases.{state_of, send_cases, data_loop_inv}

-- the bytes on the connections
pub total : List (ℕ × List ℕ) → ℕ
total [] = 0
total ((fd, b) ∷ w) = length b + total w

total-append :
    (w : List (ℕ × List ℕ)) (fd : ℕ) (b : List ℕ) → total (w ++ (fd, b) ∷ []) ≡ total w + length b
unfolding total
total-append [] fd b = omega arith
total-append ((fd', c) ∷ w) fd b = omega (arith, total-append w fd b)

length-take_le : (n : ℕ) (l : List ℕ) → length (take n l) ≤ n
length-take_le zero l = omega arith
length-take_le (suc n) [] = omega arith
length-take_le (suc n) (x ∷ l) = omega (arith, length-take_le n l)

length-take_full : (n : ℕ) (l : List ℕ) → n ≤ length l → length (take n l) ≡ n
length-take_full zero l h = refl
length-take_full (suc n) [] h = absurd (omega (arith, h))
length-take_full (suc n) (x ∷ l) h = omega (arith, length-take_full n l (omega (arith, h)))

-- within the limit of the slot and four bytes, and counted right
pub WithinBudget : Data → Type 0
WithinBudget s = (s.bytes_sent ≤ 135004) × (s.bytes_sent ≡ total s.wire)

after_send-budget :
    (s : Data) (hop fd : ℕ) (b : List ℕ) (o : Option ℕ)
    → WithinBudget s
    → s.bytes_sent + length b ≤ 135004
    → ((k : ℕ) → o ≡ some k → k ≤ length b)
    → WithinBudget (after_send s hop fd b o)
unfolding after_send WithinBudget
after_send-budget s hop fd b none v room fits = v
after_send-budget s hop fd b (some k) v room fits = elim (Bool-cases (k == 0)) [
  | inl none_sent ↦ rw (after_send, none_sent) v
  | inr some_sent ↦
      let low = fits k refl in
      rw (after_send, some_sent)
        (
          omega (arith, low, room),
          omega (arith, v.1, total-append s.wire fd (take k b), length-take_full k b low),
        )
]

module _ {D T : Type 0} (proc : Processor D) (env : Env D T) (slot_end me : ℕ) where
  from_pop-budget :
      (i : ℕ) (s : Data) (o : Option Pkt × TxQueue)
      → ((j : ℕ) (b : List ℕ) (k : ℕ) → env.send j b ≡ some k → k ≤ length b)
      → WithinBudget s
      → WithinBudget (state_of (from_pop proc env slot_end me i s o))
  unfolding from_pop WithinBudget push_back numbered message_of
  from_pop-budget i s (none, q) honest v = v
  from_pop-budget i s (some p, q) honest v =
      send_cases proc env slot_end me (λ o. WithinBudget (state_of o)) i (record s { queue = q }) p
        v v v v
        (λ hop fd room.
          let h = header_of env me i (record s { queue = q }) in
          let d = message_of me (record s { queue = q }) p in
          after_send-budget _ hop fd (frame proc h d) _ v
            (omega (arith, room, length-frame proc h d, length-take_le p.len p.bytes))
            (honest i (frame proc h d)))

  -- A socket takes at most the bytes that it is given, as send is documented: at any time in the loop, with no bytes sent
  -- at its start, the sockets have taken at most 135004 bytes, and bytes_sent is their number.
  pub data_loop_budget :
      ((j : ℕ) (b : List ℕ) (k : ℕ) → env.send j b ≡ some k → k ≤ length b)
      → (n : ℕ) (s : Data) → s.bytes_sent ≡ 0
      → s.wire ≡ []
      → let t = state_of (data_loop proc env slot_end me n 0 s) in
        (t.bytes_sent ≤ max_bytes_slot + 4) × (t.bytes_sent ≡ total t.wire)
  unfolding WithinBudget data_round total
  data_loop_budget honest n s e w =
      data_loop_inv proc env slot_end me WithinBudget
        (λ i t v. from_pop-budget i t (pop (push_all t.queue (env.arrivals i))) honest v) n 0 s
        (omega (arith, e), ground (arith, e, w))
