-- ===== src/Transmit/Data/Carried.antt =====
-- Which messages carry which packets, and the bytes of one connection.
use routing_mesh.Prelude.{
  ℕ, suc, ◌≡◌, refl, sym, ap, ◌∙◌, inl, inr, List, [], ◌∷◌, ◌++◌, ◌==◌, if◌then◌else◌, Bool-cases,
  length,
}
use mathlib.Core.List.{append_assoc, append-nil}
use routing_mesh.Frame.{Processor, Header, Message, frame}
use routing_mesh.Frame.RoundTrip.{Fits, AllFit, messages, stream_of}
use routing_mesh.TxQueue.{Pkt}

-- The messages of node `me` carry some of the packets, in their order.
pub data Carried (me : ℕ) : List Pkt → List Message → Type 0 where
  nothing : Carried me [] []
  elsewhere :
      {ps : List Pkt} {ms : List Message} (p : Pkt) → Carried me ps ms → Carried me (p ∷ ps) ms
  carried :
      {ps : List Pkt} {ms : List Message} (p : Pkt) (d : Message)
      → d.src_id ≡ me
      → d.dst_id ≡ p.dst_id
      → d.payload ≡ p.bytes
      → Carried me ps ms
      → Carried me (p ∷ ps) (d ∷ ms)

pub elsewhere_last :
    {me : ℕ} {ps : List Pkt} {ms : List Message} (p : Pkt)
    → Carried me ps ms
    → Carried me (ps ++ p ∷ []) ms
elsewhere_last p nothing = elsewhere p nothing
elsewhere_last p (elsewhere q c) = elsewhere q (elsewhere_last p c)
elsewhere_last p (carried q d a b e c) = carried q d a b e (elsewhere_last p c)

pub sent_last :
    {me : ℕ} {ps : List Pkt} {ms : List Message} (p : Pkt) (d : Message)
    → d.src_id ≡ me
    → d.dst_id ≡ p.dst_id
    → d.payload ≡ p.bytes
    → Carried me ps ms
    → Carried me (ps ++ p ∷ []) (ms ++ d ∷ [])
sent_last p d x y z nothing = carried p d x y z nothing
sent_last p d x y z (elsewhere q c) = elsewhere q (sent_last p d x y z c)
sent_last p d x y z (carried q d' a b e c) = carried q d' a b e (sent_last p d x y z c)

-- what the socket fd has taken
unfoldable pub bytes_on : ℕ → List (ℕ × List ℕ) → List ℕ
bytes_on fd [] = []
bytes_on fd ((f, b) ∷ w) = if f == fd then b ++ bytes_on fd w else bytes_on fd w

pub bytes_on-append :
    (fd f : ℕ) (b : List ℕ) (w : List (ℕ × List ℕ))
    → bytes_on fd (w ++ (f, b) ∷ []) ≡ bytes_on fd w ++ (if f == fd then b else [])
unfolding bytes_on
bytes_on-append fd f b [] = elim (Bool-cases (f == fd)) [
  | inl e ↦ rw e (append-nil b)
  | inr e ↦ rw e refl
]
bytes_on-append fd f b ((g, c) ∷ w) = elim (Bool-cases (g == fd)) [
  | inl e ↦
      rw e (ap (λ l. c ++ l) (bytes_on-append fd f b w) ∙ sym (append_assoc c (bytes_on fd w) _))
  | inr e ↦ rw e (bytes_on-append fd f b w)
]

pub length-messages :
    {D : Type 0} (ms : List (Header D × Message)) → length (messages ms) ≡ length ms
unfolding messages
length-messages [] = refl
length-messages ((h, d) ∷ ms) = ap suc (length-messages ms)

pub messages-append :
    {D : Type 0} (ms : List (Header D × Message)) (h : Header D) (d : Message)
    → messages (ms ++ (h, d) ∷ []) ≡ messages ms ++ d ∷ []
unfolding messages
messages-append [] h d = refl
messages-append ((h', d') ∷ ms) h d = ap (λ l. d' ∷ l) (messages-append ms h d)

pub AllFit-append :
    {D : Type 0} (ms : List (Header D × Message)) (h : Header D) (d : Message)
    → AllFit ms
    → h.type ≡ 2
    → Fits d
    → AllFit (ms ++ (h, d) ∷ [])
unfolding AllFit
AllFit-append [] h d v t f = (t, f, tt)
AllFit-append ((h', d') ∷ ms) h d (t', f', v) t f = (t', f', AllFit-append ms h d v t f)

pub stream_of-append :
    {D : Type 0} (proc : Processor D) (ms : List (Header D × Message)) (h : Header D) (d : Message)
    → stream_of proc (ms ++ (h, d) ∷ []) ≡ stream_of proc ms ++ frame proc h d
unfolding stream_of
stream_of-append proc [] h d = append-nil (frame proc h d)
stream_of-append proc ((h', d') ∷ ms) h d =
    ap (λ l. frame proc h' d' ++ l) (stream_of-append proc ms h d)
    ∙ sym (append_assoc (frame proc h' d') (stream_of proc ms) (frame proc h d))
