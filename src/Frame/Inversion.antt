-- ===== src/Frame/Inversion.antt =====
-- What a stream that gives a message must be.
use routing_mesh.Prelude.{
  ℕ, zero, suc, ◌+◌, ◌-◌, ◌<◌, ◌≤◌, ◌≡◌, refl, sym, ap, ◌∙◌, inl, inr, Bool, true, false, ◌||◌, not,
  List, [], ◌∷◌, arith, length, get_or, take, drop, slice, length-slice, ltb, ltb→lt, ◌==◌,
  if◌then◌else◌, Bool-cases,
}
use routing_mesh.Frame.{
  Processor, Message, get_length, fill, Received, message, dropped, closed, timed_out, read_message,
  read_packet, receive, msg_data,
}

payload_of : Received → List ℕ
payload_of timed_out = []
payload_of closed = []
payload_of dropped = []
payload_of (message d) = d.payload

pub get_or-slice : (f : ℕ → ℕ) (i n k : ℕ) → k < n → get_or (slice f i n) k 0 ≡ f (i + k)
get_or-slice f i zero k h = absurd (omega (arith, h))
get_or-slice f i (suc n) zero h = ap f (omega arith)
get_or-slice f i (suc n) (suc k) h =
    get_or-slice f (i + 1) n k (omega (arith, h)) ∙ ap f (omega arith)

get_or-take : (n k : ℕ) (l : List ℕ) → k < n → get_or (take n l) k 0 ≡ get_or l k 0
get_or-take zero k l h = absurd (omega (arith, h))
get_or-take (suc n) k [] h = refl
get_or-take (suc n) zero (x ∷ l) h = refl
get_or-take (suc n) (suc k) (x ∷ l) h = get_or-take n k l (omega (arith, h))

get_or-drop : (n k : ℕ) (l : List ℕ) → get_or (drop n l) k 0 ≡ get_or l (n + k) 0
get_or-drop zero k l = ap (λ i. get_or l i 0) (omega arith)
get_or-drop (suc n) k [] = refl
get_or-drop (suc n) k (x ∷ l) =
    let e : suc (n + k) ≡ suc n + k = omega arith in
    get_or-drop n k l ∙ ap (λ i. get_or (x ∷ l) i 0) e

length-take_le : (n : ℕ) (l : List ℕ) → length (take n l) ≡ n → n ≤ length l
length-take_le zero l h = omega arith
length-take_le (suc n) [] h = absurd (omega (arith, h))
length-take_le (suc n) (x ∷ l) h = omega (arith, length-take_le n l (omega (arith, h)))

length-take_full : (n : ℕ) (l : List ℕ) → n ≤ length l → length (take n l) ≡ n
length-take_full zero l h = refl
length-take_full (suc n) [] h = absurd (omega (arith, h))
length-take_full (suc n) (x ∷ l) h = ap suc (length-take_full n l (omega (arith, h)))

length-drop : (n : ℕ) (l : List ℕ) → length (drop n l) ≡ length l - n
length-drop zero l = omega arith
length-drop (suc n) [] = omega arith
length-drop (suc n) (x ∷ l) = omega (arith, length-drop n l)

no_message : {d : Message} (b : Bool) → (if b then timed_out else closed) ≡ message d → ⊥
no_message true e = ground (arith, e)
no_message false e = ground (arith, e)

module _ {D : Type 0} (proc : Processor D) where
  read_message_inv :
      (f : ℕ → ℕ) (d : Message)
      → read_message proc f ≡ message d
      → (1 ≤ length d.payload)
        × (length d.payload ≤ 1500)
        × (f 0 ≡ 2)
        × ((k : ℕ) → k < length d.payload → get_or d.payload k 0 ≡ f (24 + k))
  unfolding read_message payload_of
  read_message_inv f d e =
      let n = proc.get16 (slice f 22 2) in
      elim (Bool-cases (not (f 0 == 2) || (n == 0 || ltb 1500 n))) [
        | inl bad ↦
            let r : read_message proc f ≡ dropped = rw (read_message, bad) refl in
            absurd (ground (arith, sym r ∙ e))
        | inr fine ↦
            let r : read_message proc f
                ≡ message (record {
                  src_id = f 18;
                  dst_id = f 19;
                  msg_id = proc.get16 (slice f 20 2);
                  payload = slice f 24 n;
                }) =
              rw (read_message, fine) refl in
            let q : slice f 24 n ≡ d.payload = ap payload_of (sym r ∙ e) in
            let len : length d.payload ≡ n = sym (ap length q) ∙ length-slice f 24 n in
            (
              ground (arith, fine, len),
              ground (arith, fine, len),
              ground (arith, fine),
              λ k lt.
                  sym (ap (λ l. get_or l k 0) q) ∙ get_or-slice f 24 n k (omega (arith, len, lt)),
            )
      ]

  read_packet_inv :
      (n : ℕ) (buffer : ℕ → ℕ) (stream : List ℕ) (d : Message)
      → (read_packet proc n buffer stream).0 ≡ message d
      → (24 ≤ n)
        × (n ≤ 4096)
        × (n ≤ length stream)
        × ((read_packet proc n buffer stream).2 ≡ drop n stream)
        × (read_message proc (fill buffer (take n stream)) ≡ message d)
  unfolding read_packet
  read_packet_inv n buffer stream d e = elim (Bool-cases (ltb n 24 || ltb 4096 n)) [
    | inl bad ↦
        let r : (read_packet proc n buffer stream).0 ≡ closed = rw (read_packet, bad) refl in
        absurd (ground (arith, sym r ∙ e))
    | inr size ↦ elim (Bool-cases (length (take n stream) == n)) [
      | inl whole ↦
          let r : read_packet proc n buffer stream ≡ (
            read_message proc (fill buffer (take n stream)),
            fill buffer (take n stream),
            drop n stream,
          ) =
            rw (read_packet, size, whole) refl in
          (
            ground (arith, size),
            ground (arith, size),
            length-take_le n stream (ground (arith, whole)),
            ap (λ (t : Received × (ℕ → ℕ) × List ℕ). t.2) r,
            sym (ap (λ (t : Received × (ℕ → ℕ) × List ℕ). t.0) r) ∙ e,
          )
      | inr short ↦
          let r : (read_packet proc n buffer stream).0 ≡ closed =
            rw (read_packet, size, short) refl in
          absurd (ground (arith, sym r ∙ e))
    ]
  ]

  fill-at :
      (n : ℕ) (buffer : ℕ → ℕ) (stream : List ℕ) (x j : ℕ)
      → length (take n (drop 4 stream)) ≡ n
      → 4 + x ≡ j
      → fill buffer (take n (drop 4 stream)) x ≡ (if ltb x n then get_or stream j 0 else buffer x)
  unfolding fill
  fill-at n buffer stream x j whole q = elim (Bool-cases (ltb x n)) [
    | inl low ↦
        rw (fill, whole, low)
          (get_or-take n x (drop 4 stream) (ltb→lt x n low)
            ∙ get_or-drop 4 x stream
            ∙ ap (λ i. get_or stream i 0) q)
    | inr high ↦ rw (fill, whole, high) refl
  ]

  -- A round of the receiver that hands on a message, from any bytes: the length in front is from 24 to 4096, so many bytes
  -- follow and the stream goes on behind them, the type is MSG_DATA, and the payload has 1 to 1500 bytes. Its bytes are
  -- those of the packet as far as that goes; behind it they are what the buffer held before.
  pub receive_inv :
      (again : Bool) (buffer : ℕ → ℕ) (stream : List ℕ) (d : Message)
      → (receive proc again buffer stream).0 ≡ message d
      → let n = get_length (take 4 stream) in
        (24 ≤ n)
        × (n ≤ 4096)
        × (4 + n ≤ length stream)
        × ((receive proc again buffer stream).2 ≡ drop n (drop 4 stream))
        × (get_or stream 4 0 ≡ msg_data)
        × (1 ≤ length d.payload)
        × (length d.payload ≤ 1500)
        × ((k : ℕ)
            → k < length d.payload
            → get_or d.payload k 0
              ≡ (if ltb (24 + k) n then get_or stream (28 + k) 0 else buffer (24 + k)))
  unfolding receive
  receive_inv again buffer stream d e = elim (Bool-cases (length (take 4 stream) == 4)) [
    | inr short ↦
        let r : (receive proc again buffer stream).0 ≡ (if again then timed_out else closed) =
          rw (receive, short) refl in
        absurd (no_message again (sym r ∙ e))
    | inl long ↦
        let n = get_length (take 4 stream) in
        let r : receive proc again buffer stream ≡ read_packet proc n buffer (drop 4 stream) =
          rw (receive, long) refl in
        let (low, high, whole, behind, read) =
          read_packet_inv n buffer (drop 4 stream) d
            (sym (ap (λ (t : Received × (ℕ → ℕ) × List ℕ). t.0) r) ∙ e) in
        let (some_bytes, few_bytes, type, bytes) = read_message_inv _ d read in
        let room : 4 ≤ length stream = length-take_le 4 stream (ground (arith, long)) in
        let size : 4 + n ≤ length stream = omega (arith, whole, room, length-drop 4 stream) in
        let all : length (take n (drop 4 stream)) ≡ n = length-take_full n (drop 4 stream) whole in
        (
          low,
          high,
          size,
          ap (λ (t : Received × (ℕ → ℕ) × List ℕ). t.2) r ∙ behind,
          ground (arith, fill-at n buffer stream 0 4 all refl, type, low),
          some_bytes,
          few_bytes,
          λ k lt. bytes k lt ∙ fill-at n buffer stream (24 + k) (28 + k) all (omega arith),
        )
  ]
