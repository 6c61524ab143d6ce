-- ===== src/Transmit/Data/Queue.antt =====
-- The queue through a round of the loop.
use routing_mesh.Prelude.{true, ℕ, inl, inr, Bool-cases, Option, none, some, List, [], ◌∷◌, ◌==◌}
use routing_mesh.Frame.{Processor}
use routing_mesh.TxQueue.{Pkt, TxQueue, pop, push}
use routing_mesh.TxQueue.Order.{IsValid, push-IsValid, pop-IsValid, push_all}
use routing_mesh.Transmit.Data.{Env, Data, from_pop, data_round, push_back, numbered, after_send}
use routing_mesh.Transmit.Data.Cases.{state_of, send_cases}

after_send-queue :
    (s : Data) (hop fd : ℕ) (bytes : List ℕ) (o : Option ℕ)
    → IsValid s.queue
    → IsValid (after_send s hop fd bytes o).queue
unfolding after_send
after_send-queue s hop fd bytes none v = v
after_send-queue s hop fd bytes (some k) v = elim (Bool-cases (k == 0)) [
  | inl nothing ↦ rw (after_send, nothing) v
  | inr some_bytes ↦ rw (after_send, some_bytes) v
]

push_all-IsValid : (q : TxQueue) (ps : List Pkt) → IsValid q → IsValid (push_all q ps)
unfolding push_all
push_all-IsValid q [] v = v
push_all-IsValid q (p ∷ ps) v =
    push_all-IsValid (push true q p.bytes p.len p.dst_id) ps
      (push-IsValid true q p.bytes p.len p.dst_id v)

-- Whatever happens to the packet at the head, the queue stays within its capacity and its counter right.
pub data_round-IsValid :
    {D T : Type 0} (proc : Processor D) (env : Env D T) (slot_end me i : ℕ) (s : Data)
    → IsValid s.queue
    → IsValid (state_of (data_round proc env slot_end me i s)).queue
unfolding data_round from_pop push_back numbered
data_round-IsValid proc env slot_end me i s v =
    let q = push_all s.queue (env.arrivals i) in
    from (pop q) (pop-IsValid q (push_all-IsValid s.queue (env.arrivals i) v))
  where
    from :
        (o : Option Pkt × TxQueue)
        → IsValid o.1
        → IsValid (state_of (from_pop proc env slot_end me i s o)).queue
    from (none, q) w = w
    from (some p, q) w =
        send_cases proc env slot_end me (λ o. IsValid (state_of o).queue) i (record s { queue = q })
          p (push-IsValid (env.memory i) q p.bytes p.len p.dst_id w) w
          (push-IsValid (env.memory i) q p.bytes p.len p.dst_id w) w
          (λ hop fd _. after_send-queue (numbered (record s { queue = q })) hop fd _ _ w)
