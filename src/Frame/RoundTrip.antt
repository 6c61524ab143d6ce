-- ===== src/Frame/RoundTrip.antt =====
-- What `tx_loop` puts on a connection is what `tcp_rx_peer_loop` takes off it.
use routing_mesh.Prelude.{
  ℕ, ◌+◌, ◌%◌, ◌^◌, ◌<◌, ◌≤◌, ◌≡◌, refl, sym, ap, subst, ◌∙◌, Bool, true, false, ◌||◌, not, List,
  [], ◌∷◌, ◌++◌, arith, length, slice, length-append, ltb, ◌==◌,
}
use mathlib.Core.List.{append_assoc, append-nil}
use native.Mathlib.Nat.{mod-eq_of_lt}
use routing_mesh.Frame.{
  Processor, Header, Message, put_length, header_bytes, data_bytes, frame, fill, message,
  read_message, read_packet, receive, receive_all, collect,
}
use routing_mesh.Frame.Bytes.{
  take-append, drop-append, get-put_length, At, At-append, At-skip, At-head, slice-fill, fill-at,
}

-- the sizes of the fields, and a payload that the receiver takes
pub record Fits (d : Message) : Type 0 where
  pub id_fits : d.msg_id < 65536
  pub some_bytes : 1 ≤ length d.payload
  pub few_bytes : length d.payload ≤ 1500

unfoldable pub AllFit : {D : Type 0} → List (Header D × Message) → Type 0
AllFit [] = Unit
AllFit ((h, d) ∷ l) = (h.type ≡ 2) × Fits d × AllFit l

unfoldable pub messages : {D : Type 0} → List (Header D × Message) → List Message
messages [] = []
messages ((h, d) ∷ l) = d ∷ messages l

module _ {D : Type 0} (proc : Processor D) where
  pub length-header_bytes : (h : Header D) → length (header_bytes proc h) ≡ 18
  unfolding header_bytes
  length-header_bytes h = omega (
    arith,
    length-append (proc.put32 h.seq_num)
        (proc.put_double h.timestamp ++ (proc.put16 h.slot_begin_ms ++ proc.put16 h.slot_end_ms)),
    length-append (proc.put_double h.timestamp)
        (proc.put16 h.slot_begin_ms ++ proc.put16 h.slot_end_ms),
    length-append (proc.put16 h.slot_begin_ms) (proc.put16 h.slot_end_ms),
    proc.length-put16 h.slot_begin_ms,
    proc.length-put16 h.slot_end_ms,
    proc.length-put32 h.seq_num,
    proc.length-put_double h.timestamp,
  )

  length-data_bytes : (d : Message) → length (data_bytes proc d) ≡ 6 + length d.payload
  unfolding data_bytes
  length-data_bytes d =
      let n = length d.payload % 2 ^ 16 in
      omega (
        arith,
        length-append (proc.put16 d.msg_id) (proc.put16 n ++ d.payload),
        length-append (proc.put16 n) d.payload,
        proc.length-put16 d.msg_id,
        proc.length-put16 n,
      )

  -- a buffer whose fields are those of the message
  read_fields :
      (f : ℕ → ℕ) (d : Message)
      → f 0 ≡ 2
      → f 18 ≡ d.src_id
      → f 19 ≡ d.dst_id
      → proc.get16 (slice f 20 2) ≡ d.msg_id
      → proc.get16 (slice f 22 2) ≡ length d.payload
      → slice f 24 (length d.payload) ≡ d.payload
      → Fits d
      → read_message proc f ≡ message d
  unfolding read_message
  read_fields f d t src dst id len bytes v =
      let low = v.some_bytes in
      let high = v.few_bytes in
      let taken : (not (f 0 == 2) || (length d.payload == 0 || ltb 1500 (length d.payload)))
          ≡ false =
        ground (arith, t) in
      rw (read_message, len, taken, src, dst, id, bytes) refl

  -- the buffer behind a packet
  pub read_message-packet :
      (h : Header D) (d : Message) (buffer : ℕ → ℕ)
      → h.type ≡ 2
      → Fits d
      → read_message proc (fill buffer (header_bytes proc h ++ data_bytes proc d)) ≡ message d
  unfolding read_message header_bytes data_bytes
  read_message-packet h d buffer t v =
      let len = length d.payload in
      let hb = header_bytes proc h in
      let db = data_bytes proc d in
      let l = hb ++ db in
      let e : len % 2 ^ 16 ≡ len = mod-eq_of_lt (omega (arith, v.few_bytes)) in
      let total : length l ≡ 24 + len =
        omega (arith, length-append hb db, length-header_bytes h, length-data_bytes d) in
      let at18 : At l 18 db = At-append hb db 18 (length-header_bytes h) in
      let m20 = proc.put16 d.msg_id ++ (proc.put16 (len % 2 ^ 16) ++ d.payload) in
      let at20 : At l 20 m20 = At-skip l (d.src_id ∷ d.dst_id ∷ []) m20 18 20 at18 (omega arith) in
      let m22 = proc.put16 (len % 2 ^ 16) ++ d.payload in
      let at22 : At l 22 m22 =
        At-skip l (proc.put16 d.msg_id) m22 20 22 at20
          (omega (arith, proc.length-put16 d.msg_id)) in
      let at24 : At l 24 d.payload =
        At-skip l (proc.put16 (len % 2 ^ 16)) d.payload 22 24 at22
          (omega (arith, proc.length-put16 (len % 2 ^ 16))) in
      read_fields (fill buffer l) d
        (At-head l _ 0 h.type buffer (At-append [] l 0 refl) (omega (arith, total)) ∙ t)
        (At-head l _ 18 d.src_id buffer at18 (omega (arith, total)))
        (At-head l _ 19 d.dst_id buffer (At-skip l (d.src_id ∷ []) _ 18 19 at18 (omega arith))
          (omega (arith, total)))
        (ap proc.get16 (
            slice-fill l (proc.put16 d.msg_id) _ 20 2 buffer at20 (proc.length-put16 d.msg_id)
              (omega (arith, total)))
          ∙ proc.get16-put16 d.msg_id v.id_fits)
        (ap proc.get16 (
            slice-fill l (proc.put16 (len % 2 ^ 16)) _ 22 2 buffer at22 (proc.length-put16 _)
              (omega (arith, total)))
          ∙ proc.get16-put16 _ (omega (arith, e, v.few_bytes))
          ∙ e)
        (slice-fill l d.payload [] 24 len buffer (subst (At l 24) (sym (append-nil d.payload)) at24)
          refl (omega (arith, total)))
        v

  read_packet-bytes :
      (l : List ℕ) (n : ℕ) (buffer : ℕ → ℕ) (rest : List ℕ)
      → length l ≡ n
      → 24 ≤ n
      → n ≤ 4096
      → read_packet proc n buffer (l ++ rest)
        ≡ (read_message proc (fill buffer l), fill buffer l, rest)
  unfolding read_packet
  read_packet-bytes l n buffer rest e low high =
      let size : (ltb n 24 || ltb 4096 n) ≡ false = ground arith in
      let whole : (length l == n) ≡ true = ground (arith, e) in
      rw (read_packet, size, take-append n l rest e, drop-append n l rest e, whole) refl

  receive-length :
      (again : Bool) (n : ℕ) (buffer : ℕ → ℕ) (stream : List ℕ)
      → n < 2 ^ 32
      → receive proc again buffer (put_length n ++ stream) ≡ read_packet proc n buffer stream
  unfolding receive put_length
  receive-length again n buffer stream h =
      ap (λ k. read_packet proc k buffer stream) (get-put_length n stream h)

  -- the first two bytes of a packet
  pub header_first :
      (h : Header D) (rest : List ℕ) (buffer : ℕ → ℕ)
      → let b = fill buffer (header_bytes proc h ++ rest) in (b 0 ≡ h.type) × (b 1 ≡ h.slot_id)
  unfolding header_bytes
  header_first h rest buffer =
      let l = header_bytes proc h ++ rest in
      let size = length-append (header_bytes proc h) rest in
      let head = length-header_bytes h in
      (
        fill-at l 0 buffer (omega (arith, size, head)),
        fill-at l 1 buffer (omega (arith, size, head)),
      )

  pub length-frame : (h : Header D) (d : Message) → length (frame proc h d) ≡ 28 + length d.payload
  unfolding frame put_length
  length-frame h d = omega (
    arith,
    length-append (header_bytes proc h) (data_bytes proc d),
    length-header_bytes h,
    length-data_bytes d,
  )

  -- A frame at the front of the stream.
  pub receive-frame :
      (again : Bool) (h : Header D) (d : Message) (buffer : ℕ → ℕ) (rest : List ℕ)
      → h.type ≡ 2
      → Fits d
      → receive proc again buffer (frame proc h d ++ rest)
        ≡ (message d, fill buffer (header_bytes proc h ++ data_bytes proc d), rest)
  unfolding frame
  receive-frame again h d buffer rest t v =
      let l = header_bytes proc h ++ data_bytes proc d in
      let n = 18 + 6 + length d.payload % 2 ^ 16 in
      let e : length d.payload % 2 ^ 16 ≡ length d.payload =
        mod-eq_of_lt (omega (arith, v.few_bytes)) in
      let total : length l ≡ n = omega (
        arith,
        e,
        length-append (header_bytes proc h) (data_bytes proc d),
        length-header_bytes h,
        length-data_bytes d,
      ) in
      let high = v.few_bytes in
      ap (receive proc again buffer) (append_assoc (put_length n) l rest)
      ∙ receive-length again n buffer (l ++ rest) (omega arith)
      ∙ read_packet-bytes l n buffer rest total (omega arith) (omega arith)
      ∙ ap (λ r. (r, fill buffer l, rest)) (read_message-packet h d buffer t v)

  -- the bytes of several messages
  unfoldable pub stream_of : List (Header D × Message) → List ℕ
  stream_of [] = []
  stream_of ((h, d) ∷ l) = frame proc h d ++ stream_of l

  -- MSG_DATA messages with 1 to 1500 bytes of payload and a msg_id of 16 bits, framed one after the other: as many rounds of
  -- the receiver give exactly these messages in their order, whatever its buffer held.
  pub receive_all-stream :
      (l : List (Header D × Message)) (buffer : ℕ → ℕ)
      → AllFit l
      → receive_all proc (length l) buffer (stream_of l) ≡ messages l
  unfolding receive_all stream_of AllFit messages collect
  receive_all-stream [] buffer v = refl
  receive_all-stream ((h, d) ∷ l) buffer (t, f, v) =
      rw (receive_all, receive-frame false h d buffer (stream_of l) t f)
        (ap (λ r. d ∷ r)
          (receive_all-stream l (fill buffer (header_bytes proc h ++ data_bytes proc d)) v))
