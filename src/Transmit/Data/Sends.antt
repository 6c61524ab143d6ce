-- ===== src/Transmit/Data/Sends.antt =====
-- From the queue of one node to the receiver of another.
use routing_mesh.Prelude.{
  ℕ, zero, suc, ◌<◌, ◌≤◌, ◌≡◌, refl, sym, ap, ◌∙◌, subst, inl, inr, Bool, true, false, Option, none,
  some, List, [], ◌∷◌, ◌++◌, arith, ◌==◌, if◌then◌else◌, Bool-cases, length, length-append, take,
}
use mathlib.Core.List.{append_assoc, append-nil}
use routing_mesh.Frame.{Processor, Header, Message, frame}
use routing_mesh.Frame.RoundTrip.{Fits, AllFit, messages, stream_of, length-frame}
use routing_mesh.TxQueue.{Pkt, TxQueue, push}
use routing_mesh.TxQueue.Order.{IsValid, stored, newest-short, push-packets}
use routing_mesh.Transmit.Data.{Data, Outcome, finished, again, after_send}
use routing_mesh.Transmit.Data.Cases.{state_of}
use routing_mesh.Transmit.Data.Carried.{
  Carried, elsewhere_last, sent_last, bytes_on, bytes_on-append, messages-append, AllFit-append,
  stream_of-append,
}

-- packets as `tun_reader_loop` leaves them: 1 to 1500 bytes, all there
pub record Whole (p : Pkt) : Type 0 where
  pub some_bytes : 1 ≤ p.len
  pub few_bytes : p.len ≤ 1500
  pub all_bytes : length p.bytes ≡ p.len

unfoldable pub AllWhole : List Pkt → Type 0
AllWhole [] = Unit
AllWhole (p ∷ ps) = Whole p × AllWhole ps

pub take-all : (n : ℕ) (l : List ℕ) → length l ≡ n → take n l ≡ l
take-all zero [] h = refl
take-all zero (x ∷ l) h = absurd (omega (arith, h))
take-all (suc n) [] h = refl
take-all (suc n) (x ∷ l) h = ap (λ r. x ∷ r) (take-all n l (omega (arith, h)))

stored-Whole : (p : Pkt) → Whole p → stored p ≡ p
stored-Whole p w = ap (λ b. record p { bytes = b }) (take-all p.len p.bytes w.all_bytes)

pub push-Whole :
    (q : TxQueue) (p : Pkt)
    → IsValid q
    → q.count ≤ 63
    → Whole p
    → (push true q p.bytes p.len p.dst_id).packets ≡ q.packets ++ p ∷ []
push-Whole q p v h w =
    push-packets q p v w.some_bytes (omega (arith, w.few_bytes))
    ∙ newest-short (q.packets ++ stored p ∷ [])
        (omega (arith, length-append q.packets (stored p ∷ []), v.counted))
    ∙ ap (λ x. q.packets ++ x ∷ []) (stored-Whole p w)

-- what the loop has done with the packets l up to `rest`, seen on the socket fd
pub record Progress {D : Type 0} (proc : Processor D) (me fd : ℕ) (l rest : List Pkt) (s : Data)
    : Type 0 where
  pub handled : List Pkt
  pub split : l ≡ handled ++ rest
  pub sent : List (Header D × Message)
  pub fit : AllFit sent
  pub bytes : bytes_on fd s.wire ≡ stream_of proc sent
  pub carries : Carried me handled (messages sent)

-- the queue behind the loop: what was not handled, its first packet at the end if the loop put it back
unfoldable pub Left : Outcome → List Pkt → Type 0
Left (again s) rest = s.queue.packets ≡ rest
Left (finished s) [] = s.queue.packets ≡ []
Left (finished s) (p ∷ r) = s.queue.packets ≡ r ++ p ∷ []

module _ {D : Type 0} (proc : Processor D) (me fd : ℕ) (l : List Pkt) where
  pub same_wire :
      (rest : List Pkt) (s t : Data)
      → Progress proc me fd l rest s
      → t.wire ≡ s.wire
      → Progress proc me fd l rest t
  same_wire rest s t g e = record {
    handled = g.handled;
    split = g.split;
    sent = g.sent;
    fit = g.fit;
    bytes = ap (bytes_on fd) e ∙ g.bytes;
    carries = g.carries;
  }

  -- a packet that does not go out on fd
  pub skipped :
      (p : Pkt) (r : List Pkt) (s t : Data)
      → Progress proc me fd l (p ∷ r) s
      → bytes_on fd t.wire ≡ bytes_on fd s.wire
      → Progress proc me fd l r t
  skipped p r s t g e = record {
    handled = g.handled ++ p ∷ [];
    split = g.split ∙ sym (append_assoc g.handled (p ∷ []) r);
    sent = g.sent;
    fit = g.fit;
    bytes = e ∙ g.bytes;
    carries = elsewhere_last p g.carries;
  }

  -- one that does
  one_sent :
      (p : Pkt) (r : List Pkt) (s t : Data) (h : Header D) (d : Message)
      → Progress proc me fd l (p ∷ r) s
      → bytes_on fd t.wire ≡ bytes_on fd s.wire ++ frame proc h d
      → h.type ≡ 2
      → Fits d
      → d.src_id ≡ me
      → d.dst_id ≡ p.dst_id
      → d.payload ≡ p.bytes
      → Progress proc me fd l r t
  one_sent p r s t h d g e type f a b c = record {
    handled = g.handled ++ p ∷ [];
    split = g.split ∙ sym (append_assoc g.handled (p ∷ []) r);
    sent = g.sent ++ (h, d) ∷ [];
    fit = AllFit-append g.sent h d g.fit type f;
    bytes = e ∙ ap (λ x. x ++ frame proc h d) g.bytes ∙ sym (stream_of-append proc g.sent h d);
    carries =
        subst (Carried me (g.handled ++ p ∷ [])) (sym (messages-append g.sent h d))
          (sent_last p d a b c g.carries);
  }

  pub sent_or_not :
      (p : Pkt) (r : List Pkt) (s s' : Data) (hop f : ℕ) (h : Header D) (d : Message) (o : Option ℕ)
      → Progress proc me fd l (p ∷ r) s
      → s'.wire ≡ s.wire
      → ((k : ℕ) → o ≡ some k → k ≡ length (frame proc h d))
      → h.type ≡ 2
      → Fits d
      → d.src_id ≡ me
      → d.dst_id ≡ p.dst_id
      → d.payload ≡ p.bytes
      → Progress proc me fd l r (after_send s' hop f (frame proc h d) o)
  unfolding after_send
  sent_or_not p r s s' hop f h d none g w whole type fits a b c =
      skipped p r s _ g (ap (bytes_on fd) w)
  sent_or_not p r s s' hop f h d (some k) g w whole type fits a b c =
      let all = whole k refl in
      let some_sent : (k == 0) ≡ false = ground (arith, all, length-frame proc h d) in
      let piece = take-all k (frame proc h d) (sym all) in
      let e : bytes_on fd (s'.wire ++ (f, take k (frame proc h d)) ∷ [])
          ≡ bytes_on fd s.wire ++ (if f == fd then frame proc h d else []) =
        rw (piece, w) (bytes_on-append fd f (frame proc h d) s.wire) in
      let on : Bool → List ℕ = λ x. bytes_on fd s.wire ++ (if x then frame proc h d else []) in
      rw (after_send, some_sent)
        (elim (Bool-cases (f == fd)) [
          | inl same ↦ one_sent p r s _ h d g (e ∙ ap on same) type fits a b c
          | inr other ↦ skipped p r s _ g (e ∙ ap on other ∙ append-nil (bytes_on fd s.wire))
        ])

  -- between two rounds
  pub record Running (s : Data) : Type 0 where
    pub progress : Progress proc me fd l s.queue.packets s
    pub valid : IsValid s.queue
    pub whole : AllWhole s.queue.packets
    pub id_fits : s.data_msg_id < 65536

  -- behind the loop
  pub record Result (o : Outcome) : Type 0 where
    pub rest : List Pkt
    pub left : Left o rest
    pub progress : Progress proc me fd l rest (state_of o)
