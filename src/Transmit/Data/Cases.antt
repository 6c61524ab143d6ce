-- ===== src/Transmit/Data/Cases.antt =====
-- The ways in which a round treats a packet, and the rule by which an invariant is carried through the loop.
use routing_mesh.Prelude.{
  ℕ, zero, suc, ◌+◌, ◌≤◌, inl, inr, Option, none, some, List, arith, ltb, leb, ◌==◌, Bool-cases,
}
use routing_mesh.Frame.{Processor, frame}
use routing_mesh.TxQueue.{Pkt}
use routing_mesh.Routing.{lookup}
use routing_mesh.Transmit.Data.{
  Env, Data, Outcome, finished, again, and_then, send_packet, data_round, data_loop, push_back,
  numbered, after_send, to_socket, header_of, message_of, max_bytes_slot,
}

abbrev pub state_of : Outcome → Data
state_of (finished s) = s
state_of (again s) = s

to_socket_cases {κ} :
    {D T : Type 0} (env : Env D T) (P : Outcome → Type κ) (i : ℕ) (s : Data) (hop : ℕ) (b : List ℕ)
    (o : Option ℕ)
    → P (again s)
    → ((fd : ℕ) → P (again (after_send s hop fd b (env.send i b))))
    → P (again (to_socket env i s hop b o))
unfolding to_socket
to_socket_cases env P i s hop b none h g = h
to_socket_cases env P i s hop b (some fd) h g = g fd

and_then_inv {κ} :
    (P : Data → Type κ) (o : Outcome) (later : Data → Outcome)
    → P (state_of o)
    → ((t : Data) → P t → P (state_of (later t)))
    → P (state_of (and_then o later))
unfolding and_then
and_then_inv P (finished t) later g h = g
and_then_inv P (again t) later g h = h t g

-- what a round has to give: R where it ends the loop, and P to go on
unfoldable pub Round {κ} : (Data → Type κ) → (Outcome → Type κ) → Outcome → Type κ
Round P R (finished t) = R (finished t)
Round P R (again t) = P t

and_then_cases {κ} :
    (P : Data → Type κ) (R : Outcome → Type κ) (o : Outcome) (later : Data → Outcome)
    → Round P R o
    → ((t : Data) → P t → R (later t))
    → R (and_then o later)
unfolding and_then Round
and_then_cases P R (finished t) later g h = g
and_then_cases P R (again t) later g h = h t g

module _ {D T : Type 0} (proc : Processor D) (env : Env D T) (slot_end me : ℕ) where
  -- back in the queue because it is late or does not fit; dropped without a route, an address or a socket; or sent
  pub send_cases {κ} :
      (P : Outcome → Type κ) (i : ℕ) (s : Data) (p : Pkt)
      → P (finished (push_back env i s p))
      → P (again s)
      → P (finished (push_back env i (numbered s) p))
      → P (again (numbered s))
      → ((hop fd : ℕ)
          → s.bytes_sent + 24 + p.len ≤ 135000
          → P (
              again (
                after_send
                  (numbered s)
                  hop
                  fd
                  (frame proc (header_of env me i s) (message_of me s p))
                  (env.send i (frame proc (header_of env me i s) (message_of me s p))))))
      → P (send_packet proc env slot_end me i s p)
  unfolding send_packet
  send_cases P i s p late lost full nowhere sent =
      let hop = lookup (env.routing i) p.dst_id in
      elim (Bool-cases (leb slot_end (env.clock i))) [
        | inl a ↦ rw (send_packet, a) late
        | inr a ↦ elim (Bool-cases (hop == 0)) [
          | inl b ↦ rw (send_packet, a, b) lost
          | inr b ↦ elim (Bool-cases (ltb max_bytes_slot (s.bytes_sent + 18 + 6 + p.len))) [
            | inl c ↦ rw (send_packet, a, b, c) full
            | inr c ↦ elim (Bool-cases (env.known hop)) [
              | inr d ↦ rw (send_packet, a, b, c, d) nowhere
              | inl d ↦
                  rw (send_packet, a, b, c, d)
                    (to_socket_cases env P i (numbered s) hop
                      (frame proc (header_of env me i s) (message_of me s p)) (env.tcp_sockfd i hop)
                      nowhere (λ fd. sent hop fd (ground (arith, c))))
            ]
          ]
        ]
      ]

  -- What a round keeps holds at the end of the loop.
  pub data_loop_inv {κ} :
      (P : Data → Type κ)
      → ((i : ℕ) (s : Data) → P s → P (state_of (data_round proc env slot_end me i s)))
      → (n i : ℕ) (s : Data) → P s
      → P (state_of (data_loop proc env slot_end me n i s))
  unfolding data_loop
  data_loop_inv P keep zero i s h = h
  data_loop_inv P keep (suc n) i s h =
      and_then_inv P (data_round proc env slot_end me i s)
        (data_loop proc env slot_end me n (i + 1)) (keep i s h) (data_loop_inv P keep n (i + 1))

  pub data_loop_cases {κ} :
      (P : Data → Type κ) (R : Outcome → Type κ)
      → ((s : Data) → P s → R (again s))
      → ((i : ℕ) (s : Data) → P s → Round P R (data_round proc env slot_end me i s))
      → (n i : ℕ) (s : Data) → P s
      → R (data_loop proc env slot_end me n i s)
  unfolding data_loop
  data_loop_cases P R stop keep zero i s h = stop s h
  data_loop_cases P R stop keep (suc n) i s h =
      and_then_cases P R (data_round proc env slot_end me i s)
        (data_loop proc env slot_end me n (i + 1)) (keep i s h)
        (data_loop_cases P R stop keep n (i + 1))
