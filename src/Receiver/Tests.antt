-- ===== src/Receiver/Tests.antt =====
-- A beacon of node 5 that lists node 7, and a message, at a node of three.
use routing_mesh.Prelude.{
  ℕ, ◌+◌, ◌*◌, ◌/◌, ◌%◌, ◌≤◌, ◌≡◌, refl, true, false, ◌||◌, ◌&&◌, List, [], ◌∷◌, arith, leb, ◌==◌,
  if◌then◌else◌, length, slice, false,
}
use routing_mesh.Sync.Tests.{fixed, blank}
use routing_mesh.Sync.Delay.{Rounding}
use routing_mesh.Matrix.Tests.{three, three-IsSound, one_byte}
use routing_mesh.Matrix.Wire.Tests.{seven-ListsNodes}
use routing_mesh.Matrix.Wire.{deserialize}
use routing_mesh.Matrix.Update.Ids.{known}
use routing_mesh.Events.{create}
use routing_mesh.Frame.{fill}
use routing_mesh.Frame.Tests.{little_endian}
use routing_mesh.Receiver.{World, Clock, receive_udp}
use routing_mesh.Receiver.Beacon.{beacon_learned}
use routing_mesh.Receiver.Messages.{OnePacket, datagram_written}

abbrev pub rounding : Rounding fixed fixed
rounding = record { fmod = λ a b. a % b; fmodf = λ a b. a % b; narrow = λ a. a }

abbrev pub world : World fixed fixed
world = record {
  last_rx = λ _. 0;
  sync = record blank { slot_id = 2; num_nodes = 3; period = 150; begin_ms = 50; end_ms = 100 };
  matrix = three;
  tree = λ _ _. 0;
  events = create;
  pdr = record { seq_table = λ _ _. 0; w_ptr = λ _. 0; pdr_in = λ _. 0; pkt_count = λ _. 0 };
  tun_open = true;
  tun = [];
}

abbrev pub clock : Clock fixed
clock = record { now_us = 4020000; sec = 4; nsec = 20000000; now = 55000 }

-- type MATRIX, sender 5, and behind the header one node, 7
abbrev pub beacon : List ℕ
beacon =
    1 ∷ 5 ∷ 0 ∷ 0 ∷ 0 ∷ 0 ∷ 4 ∷ 0 ∷ 0 ∷ 0 ∷ 0 ∷ 0 ∷ 0 ∷ 0 ∷ 100 ∷ 0 ∷ 150 ∷ 0 ∷ 1 ∷ 7 ∷ 0 ∷ 0 ∷ []

beacon_learned_example :
    let b = fill (λ _. 0) beacon in
    let new = deserialize one_byte (λ k. b (18 + k)) in
    let w' =
      (receive_udp little_endian one_byte rounding 4 (λ _. 0) clock world (λ _. 0) beacon).0 in
    ((id : ℕ) → known w'.matrix id ≡ (known three id || known new id))
    × (w'.matrix.active ≤ 15)
    × ((x : ℕ) → w'.last_rx x ≡ (if x == b 1 && leb (b 1) 20 then 4020000 / (150 * 1000) else 0))
    × (0 ≤ 64 → length w'.sync.delays ≤ 64)
    × (w'.sync.begin_ms ≡ 50)
    × (w'.tun ≡ [])
unfolding fill
beacon_learned_example =
    beacon_learned little_endian one_byte rounding 4 (λ _. 0) clock world (λ _. 0) beacon
      (omega arith) refl three-IsSound
      (seven-ListsNodes (λ k. fill (λ _. 0) beacon (18 + k)) refl refl)

-- a message whose length field is 20
abbrev message : List ℕ
message = 2 ∷ slice (λ k. if k == 21 then 20 else 0) 0 60

not_matrix : (fill (λ _. 0) message 0 == 1) ≡ false
unfolding fill
not_matrix = refl

datagram_written_example :
    let w' =
      (receive_udp little_endian one_byte rounding 4 (λ _. 0) clock world (λ _. 0) message).0 in
    OnePacket true [] w'.tun × ((fill (λ _. 0) message 0 == 2) ≡ false → w' ≡ world)
datagram_written_example =
    datagram_written little_endian one_byte rounding 4 (λ _. 0) clock world (λ _. 0) message
      not_matrix
