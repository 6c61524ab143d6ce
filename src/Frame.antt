-- ===== src/Frame.antt =====
-- matrix.h, msg_data.h and node.c: a MSG_DATA message on a TCP connection. Four bytes of length in network order come
-- first, then the packed headers in the order of the processor, which is a parameter, then the IP packet.
pub mod Bytes
pub mod RoundTrip
pub mod Inversion
pub mod Tests
use routing_mesh.Prelude.{
  ℕ, zero, suc, ◌+◌, ◌-◌, ◌*◌, ◌/◌, ◌%◌, ◌^◌, ◌<◌, ◌≡◌, Bool, true, false, ◌||◌, not, Option, none,
  some, List, [], ◌∷◌, ◌++◌, ltb, ◌==◌, if◌then◌else◌, length, get_or, take, drop, slice,
}

-- How the processor lays out numbers of 16 and 32 bits and doubles: by so many bytes, from which it reads them back.
pub record Processor (D : Type 0) : Type 0 where
  pub put16 : ℕ → List ℕ
  pub put32 : ℕ → List ℕ
  pub put_double : D → List ℕ
  pub get16 : List ℕ → ℕ
  pub length-put16 : (n : ℕ) → length (put16 n) ≡ 2
  pub length-put32 : (n : ℕ) → length (put32 n) ≡ 4
  pub length-put_double : (d : D) → length (put_double d) ≡ 8
  pub get16-put16 : (n : ℕ) → n < 2 ^ 16 → get16 (put16 n) ≡ n

-- MSG_DATA
abbrev pub msg_data : ℕ
msg_data = 2

-- sizeof(tdma_header_t) and MSG_DATA_HDR_WIRE
abbrev pub tdma_header_size : ℕ
tdma_header_size = 18

abbrev pub msg_data_hdr_wire : ℕ
msg_data_hdr_wire = 6

-- `tdma_header_t`
pub record Header (D : Type 0) : Type 0 where
  pub type : ℕ
  pub slot_id : ℕ
  pub seq_num : ℕ
  pub timestamp : D
  pub slot_begin_ms : ℕ
  pub slot_end_ms : ℕ

-- `msg_data_hdr_t` up to its first data_len bytes of payload
pub record Message : Type 0 where
  pub src_id : ℕ
  pub dst_id : ℕ
  pub msg_id : ℕ
  pub payload : List ℕ

-- what `htonl` and memcpy put in front
pub put_length : ℕ → List ℕ
put_length n = n / 2 ^ 24 % 256 ∷ n / 2 ^ 16 % 256 ∷ n / 2 ^ 8 % 256 ∷ n % 256 ∷ []

-- `ntohl`
pub get_length : List ℕ → ℕ
get_length b = get_or b 0 0 * 2 ^ 24 + get_or b 1 0 * 2 ^ 16 + get_or b 2 0 * 2 ^ 8 + get_or b 3 0

module _ {D : Type 0} (proc : Processor D) where
  pub header_bytes : Header D → List ℕ
  header_bytes h =
      h.type
      ∷ h.slot_id
      ∷ (proc.put32 h.seq_num
          ++ (proc.put_double h.timestamp
              ++ (proc.put16 h.slot_begin_ms ++ proc.put16 h.slot_end_ms)))

  pub data_bytes : Message → List ℕ
  data_bytes d =
      d.src_id
      ∷ d.dst_id
      ∷ (proc.put16 d.msg_id ++ (proc.put16 (length d.payload % 2 ^ 16) ++ d.payload))

  -- `frame` of `tx_loop`
  pub frame : Header D → Message → List ℕ
  frame h d =
      put_length (tdma_header_size + msg_data_hdr_wire + length d.payload % 2 ^ 16)
      ++ (header_bytes h ++ data_bytes d)

-- What a round of `tcp_rx_peer_loop` does with the connection: nothing, close it, drop the packet, or hand on a message.
pub data Received : Type 0 where
  timed_out : Received
  closed : Received
  dropped : Received
  message : Message → Received

-- the messages handed on, with those of the rounds that follow
pub collect : Received → List Message → List Message
collect timed_out later = later
collect closed later = []
collect dropped later = later
collect (message d) later = d ∷ later

-- recv(fd, buffer, n, MSG_WAITALL): the buffer behind the bytes keeps what it had
unfoldable pub fill : (ℕ → ℕ) → List ℕ → ℕ → ℕ
fill buffer bytes x = if ltb x (length bytes) then get_or bytes x 0 else buffer x

module _ {D : Type 0} (proc : Processor D) where
  -- the message in the buffer
  pub read_message : (ℕ → ℕ) → Received
  read_message buffer =
      let ip_len = proc.get16 (slice buffer 22 2) in
      if not (buffer 0 == msg_data) || (ip_len == 0 || ltb 1500 ip_len)
      then dropped
      else message (record {
        src_id = buffer 18;
        dst_id = buffer 19;
        msg_id = proc.get16 (slice buffer 20 2);
        payload = slice buffer 24 ip_len;
      })

  -- a packet of pkt_len bytes, of which the stream has the rest
  pub read_packet : ℕ → (ℕ → ℕ) → List ℕ → Received × (ℕ → ℕ) × List ℕ
  read_packet pkt_len buffer stream =
      let bytes = take pkt_len stream in
      let buffer' = fill buffer bytes in
      if ltb pkt_len (tdma_header_size + msg_data_hdr_wire) || ltb 4096 pkt_len
      then (closed, buffer, stream)
      else (if length bytes == pkt_len
          then (read_message buffer', buffer', drop pkt_len stream)
          else (closed, buffer', []))

  -- a round of `tcp_rx_peer_loop`, with the bytes that the connection has left and whether errno is EAGAIN when the
  -- first recv falls short
  pub receive : Bool → (ℕ → ℕ) → List ℕ → Received × (ℕ → ℕ) × List ℕ
  receive again buffer stream =
      if length (take 4 stream) == 4
      then read_packet (get_length (take 4 stream)) buffer (drop 4 stream)
      else ((if again then timed_out else closed), buffer, [])

  -- n rounds
  pub receive_all : ℕ → (ℕ → ℕ) → List ℕ → List Message
  receive_all zero buffer stream = []
  receive_all (suc n) buffer stream =
      let (r, buffer', rest) = receive false buffer stream in collect r (receive_all n buffer' rest)
