-- ===== src/Transmit/Data/Delivered.antt =====
-- The loop over a whole queue.
use routing_mesh.Prelude.{
  ℕ, ◌-◌, ◌<◌, ◌≤◌, ◌≡◌, refl, sym, ap, ◌∙◌, subst, inl, inr, true, Option, none, some, List, [],
  ◌∷◌, ◌++◌, arith, ◌==◌, Bool-cases, length,
}
use routing_mesh.Frame.{Processor, Message, frame, receive_all}
use routing_mesh.Frame.RoundTrip.{AllFit, messages, stream_of, receive_all-stream}
use routing_mesh.TxQueue.{Pkt, TxQueue, push, pop, pop_from}
use routing_mesh.TxQueue.Order.{IsValid, push_all}
use routing_mesh.Transmit.Data.{
  Env, Data, finished, send_packet, from_pop, data_round, data_loop, push_back, numbered,
  after_send, header_of, message_of,
}
use routing_mesh.Transmit.Data.Cases.{state_of, Round, send_cases, data_loop_cases}
use routing_mesh.Transmit.Data.Carried.{Carried, nothing, bytes_on, length-messages}
use routing_mesh.Transmit.Data.Sends.{
  Whole, AllWhole, take-all, push-Whole, Progress, Left, same_wire, skipped, sent_or_not, Running,
  Result,
}

-- No packet arrives, there is memory, and send takes a whole frame or fails.
pub record Quiet {D T : Type 0} (env : Env D T) : Type 0 where
  pub no_arrivals : (i : ℕ) → env.arrivals i ≡ []
  pub with_memory : (i : ℕ) → env.memory i ≡ true
  pub whole_frames : (i : ℕ) (b : List ℕ) (k : ℕ) → env.send i b ≡ some k → k ≡ length b

after_send-rest :
    (s : Data) (hop f : ℕ) (b : List ℕ) (o : Option ℕ)
    → ((after_send s hop f b o).queue ≡ s.queue)
      × ((after_send s hop f b o).data_msg_id ≡ s.data_msg_id)
unfolding after_send
after_send-rest s hop f b none = (refl, refl)
after_send-rest s hop f b (some k) = elim (Bool-cases (k == 0)) [
  | inl e ↦ rw e (refl, refl)
  | inr e ↦ rw e (refl, refl)
]

module _ {D T : Type 0} (proc : Processor D) (env : Env D T) (slot_end me fd : ℕ)
    (l : List Pkt) where
  back_in_queue :
      (i : ℕ) (s : Data) (p : Pkt)
      → Quiet env
      → IsValid s.queue
      → s.queue.count ≤ 63
      → Whole p
      → Progress proc me fd l (p ∷ s.queue.packets) s
      → Result proc me fd l (finished (push_back env i s p))
  unfolding push_back Left
  back_in_queue i s p q v room w g = record {
    rest = p ∷ s.queue.packets;
    left =
        ap (λ b. (push b s.queue p.bytes p.len p.dst_id).packets) (q.with_memory i)
        ∙ push-Whole s.queue p v room w;
    progress = same_wire proc me fd l (p ∷ s.queue.packets) s _ g refl;
  }

  after_sent :
      (s : Data) (hop f : ℕ) (b : List ℕ) (o : Option ℕ)
      → IsValid s.queue
      → AllWhole s.queue.packets
      → s.data_msg_id < 65536
      → Progress proc me fd l s.queue.packets (after_send s hop f b o)
      → Running proc me fd l (after_send s hop f b o)
  after_sent s hop f b o v ws id g =
      let (e, n) = after_send-rest s hop f b o in
      record {
        progress =
            subst (λ (x : TxQueue). Progress proc me fd l x.packets (after_send s hop f b o))
              (sym e) g;
        valid = subst IsValid (sym e) v;
        whole = subst (λ (x : TxQueue). AllWhole x.packets) (sym e) ws;
        id_fits = omega (arith, n, id);
      }

  packet_kept :
      (i : ℕ) (s : Data) (p : Pkt)
      → Quiet env
      → IsValid s.queue
      → s.queue.count ≤ 63
      → Whole p
      → AllWhole s.queue.packets
      → s.data_msg_id < 65536
      → Progress proc me fd l (p ∷ s.queue.packets) s
      → Round (Running proc me fd l) (Result proc me fd l) (send_packet proc env slot_end me i s p)
  unfolding Round numbered message_of header_of
  packet_kept i s p q v room w ws id g =
      send_cases proc env slot_end me (Round (Running proc me fd l) (Result proc me fd l)) i s p
        (back_in_queue i s p q v room w g)
        (record {
          progress = skipped proc me fd l p s.queue.packets s s g refl;
          valid = v;
          whole = ws;
          id_fits = id;
        })
        (back_in_queue i (numbered s) p q v room w
          (same_wire proc me fd l (p ∷ s.queue.packets) s (numbered s) g refl))
        (record {
          progress = skipped proc me fd l p s.queue.packets s (numbered s) g refl;
          valid = v;
          whole = ws;
          id_fits = omega arith;
        })
        (λ hop f fits.
          let h = header_of env me i s in
          let d = message_of me s p in
          let bytes = take-all p.len p.bytes w.all_bytes in
          after_sent (numbered s) hop f (frame proc h d) (env.send i (frame proc h d)) v ws
            (omega arith)
            (sent_or_not proc me fd l p s.queue.packets s (numbered s) hop f h d
              (env.send i (frame proc h d)) g refl (q.whole_frames i (frame proc h d)) refl
              (record {
                id_fits = id;
                some_bytes = omega (arith, ap length bytes, w.all_bytes, w.some_bytes);
                few_bytes = omega (arith, ap length bytes, w.all_bytes, w.few_bytes);
              })
              refl refl bytes))

  pop_kept :
      (i : ℕ) (s : Data) (c : ℕ) (ps : List Pkt)
      → Quiet env
      → IsValid (record { packets = ps; count = c })
      → AllWhole ps
      → s.data_msg_id < 65536
      → Progress proc me fd l ps s
      → Round
          (Running proc me fd l)
          (Result proc me fd l)
          (from_pop proc env slot_end me i s (pop_from c ps))
  unfolding Round from_pop pop_from AllWhole Left
  pop_kept i s c [] q v ws id g = record {
    rest = [];
    left = refl;
    progress = same_wire proc me fd l [] s _ g refl;
  }
  pop_kept i s c (p ∷ ps) q v (w, ws) id g =
      packet_kept i (record s { queue = record { packets = ps; count = c - 1 } }) p q
        (record { counted = omega (arith, v.counted); bounded = omega (arith, v.bounded) })
        (omega (arith, v.bounded)) w ws id (same_wire proc me fd l (p ∷ ps) s _ g refl)

  loop_kept :
      (i : ℕ) (s : Data)
      → Quiet env
      → Running proc me fd l s
      → Round (Running proc me fd l) (Result proc me fd l) (data_round proc env slot_end me i s)
  unfolding data_round pop push_all
  loop_kept i s q v =
      rw (q.no_arrivals i)
        (pop_kept i s s.queue.count s.queue.packets q v.valid v.whole v.id_fits v.progress)

-- The MSG_DATA loop on a queue of packets that `tun_reader_loop` has left, from 1 to 1500 bytes each and at most 64, while
-- no packet arrives, with memory, and with sockets that take a whole frame or fail. However many rounds are run: the queue
-- was the packets handled and then the others. These others are what is in the queue, its first packet at the end if the
-- loop has ended by putting it back. The bytes that a socket fd has taken are, for a receiver that starts with them,
-- messages that carry some of the packets handled, in their order, with this node as their source.
pub data_loop_received :
    {D T : Type 0} (proc : Processor D) (env : Env D T) (slot_end me fd : ℕ) (n : ℕ) (s : Data)
    (buffer : ℕ → ℕ)
    → Quiet env
    → IsValid s.queue
    → AllWhole s.queue.packets
    → s.data_msg_id < 65536
    → s.wire ≡ []
    → let o = data_loop proc env slot_end me n 0 s in
      (handled : List Pkt) × (rest : List Pkt) × (ms : List Message) × (s.queue.packets
        ≡ handled ++ rest)
      × Left o rest
      × (receive_all proc (length ms) buffer (bytes_on fd (state_of o).wire) ≡ ms)
      × Carried me handled ms
unfolding bytes_on Left stream_of messages AllFit
data_loop_received proc env slot_end me fd n s buffer q v ws id w =
    let l = s.queue.packets in
    let r =
      data_loop_cases proc env slot_end me (Running proc me fd l) (Result proc me fd l)
        (λ t g. record { rest = t.queue.packets; left = refl; progress = g.progress })
        (λ i t g. loop_kept proc env slot_end me fd l i t q g) n 0 s
        (record {
          progress = record {
            handled = [];
            split = refl;
            sent = [];
            fit = tt;
            bytes = ap (bytes_on fd) w;
            carries = nothing;
          };
          valid = v;
          whole = ws;
          id_fits = id;
        }) in
    let g = r.progress in
    let o = data_loop proc env slot_end me n 0 s in
    (
      g.handled,
      r.rest,
      messages g.sent,
      g.split,
      r.left,
      ap (λ k. receive_all proc k buffer (bytes_on fd (state_of o).wire)) (length-messages g.sent)
          ∙ ap (receive_all proc (length g.sent) buffer) g.bytes
          ∙ receive_all-stream proc g.sent buffer g.fit,
      g.carries,
    )
