-- ===== src/Frame/Tests.antt =====
-- The frame theorems at concrete inputs, on a little-endian processor; only one bit of a double is kept.
use routing_mesh.Prelude.{
  ℕ, ◌+◌, ◌*◌, ◌/◌, ◌%◌, ◌<◌, ◌≤◌, ◌≡◌, refl, false, List, [], ◌∷◌, arith, length, get_or, take,
  drop, ltb, if◌then◌else◌,
}
use routing_mesh.Frame.{
  Processor, Header, Message, get_length, fill, message, read_message, read_packet, receive,
  receive_all, msg_data,
}
use routing_mesh.Frame.RoundTrip.{AllFit, stream_of, messages, receive_all-stream}
use routing_mesh.Frame.Inversion.{receive_inv}

abbrev pub little_endian : Processor ℕ
little_endian = record {
  put16 = λ n. n % 256 ∷ n / 256 % 256 ∷ [];
  put32 = λ n. n % 256 ∷ n / 256 % 256 ∷ n / 65536 % 256 ∷ n / 16777216 % 256 ∷ [];
  put_double = λ d. 0 ∷ 0 ∷ 0 ∷ 0 ∷ 0 ∷ 0 ∷ 0 ∷ d % 256 ∷ [];
  get16 = λ b. get_or b 0 0 + get_or b 1 0 * 256;
  length-put16 = λ n. refl;
  length-put32 = λ n. refl;
  length-put_double = λ d. refl;
  get16-put16 = λ n h. omega (arith, h);
}

abbrev header : Header ℕ
header = record {
  type = msg_data;
  slot_id = 1;
  seq_num = 70000;
  timestamp = 5;
  slot_begin_ms = 0;
  slot_end_ms = 0;
}

abbrev first : Message
first = record { src_id = 1; dst_id = 3; msg_id = 513; payload = 69 ∷ 0 ∷ 4 ∷ [] }

abbrev second : Message
second = record { src_id = 1; dst_id = 2; msg_id = 514; payload = 70 ∷ [] }

abbrev sent : List (Header ℕ × Message)
sent = (header, first) ∷ (header, second) ∷ []

sent-AllFit : AllFit sent
unfolding AllFit
sent-AllFit = (
  refl,
  record { id_fits = omega arith; some_bytes = omega arith; few_bytes = omega arith },
  (refl, record { id_fits = omega arith; some_bytes = omega arith; few_bytes = omega arith }, tt),
)

receive_all-stream_example :
    receive_all little_endian 2 (λ _. 7) (stream_of little_endian sent) ≡ messages sent
receive_all-stream_example = receive_all-stream little_endian sent (λ _. 7) sent-AllFit

-- a packet of one byte whose data_len says three: the receiver takes two bytes from its buffer
abbrev short_packet : List ℕ
short_packet =
    0 ∷ 0 ∷ 0 ∷ 25 ∷ 2 ∷ 1 ∷ 0 ∷ 0 ∷ 0 ∷ 0 ∷ 0 ∷ 0 ∷ 0 ∷ 0 ∷ 0 ∷ 0 ∷ 0 ∷ 0 ∷ 0 ∷ 0 ∷ 0 ∷ 0 ∷ 1 ∷ 3
    ∷ 1 ∷ 0 ∷ 3 ∷ 0 ∷ 69 ∷ []

abbrev stale : Message
stale = record { src_id = 1; dst_id = 3; msg_id = 1; payload = 69 ∷ 7 ∷ 7 ∷ [] }

short_packet-receive : (receive little_endian false (λ _. 7) short_packet).0 ≡ message stale
unfolding receive read_packet read_message fill get_length
short_packet-receive = refl

receive_inv_example :
    let n = get_length (take 4 short_packet) in
    (24 ≤ n)
    × (n ≤ 4096)
    × (4 + n ≤ length short_packet)
    × ((receive little_endian false (λ _. 7) short_packet).2 ≡ drop n (drop 4 short_packet))
    × (get_or short_packet 4 0 ≡ msg_data)
    × (1 ≤ length stale.payload)
    × (length stale.payload ≤ 1500)
    × ((k : ℕ)
        → k < length stale.payload
        → get_or stale.payload k 0 ≡ (if ltb (24 + k) n then get_or short_packet (28 + k) 0 else 7))
receive_inv_example =
    receive_inv little_endian false (λ _. 7) short_packet stale short_packet-receive
