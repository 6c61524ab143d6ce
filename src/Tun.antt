-- ===== src/Tun.antt =====
-- tun.c and node.c, `tun_reader_loop`: from the packets read from the TUN device to the queue. A packet is the list of its
-- bytes; its version is the upper half of byte 0 and the last byte of its destination is byte 19, as IPv4 lays them out.
pub mod Admitted
mod Tests
use routing_mesh.Prelude.{
  ℕ, ◌/◌, Bool, true, false, ◌||◌, not, List, [], ◌∷◌, ltb, ◌==◌, if◌then◌else◌, length, get_or,
}
use routing_mesh.TxQueue.{TxQueue, push}

-- sizeof(struct iphdr)
abbrev pub header_size : ℕ
header_size = 20

-- `tun_get_dst_node`; a destination outside 10.0.0.0/24 is only reported
pub tun_get_dst_node : List ℕ → ℕ
tun_get_dst_node packet =
    if ltb (length packet) header_size
    then 0
    else (if get_or packet 0 0 / 16 == 4 then get_or packet 19 0 else 0)

-- the body of `tun_reader_loop` on a packet; `ready` is the answer of `sync_data_plane_ready`, and `memory` whether malloc
-- gives memory for the packet
pub read_packet : Bool → Bool → ℕ → TxQueue → List ℕ → TxQueue
read_packet ready memory me q packet =
    let d = tun_get_dst_node packet in
    if d == 0 || d == me then q else (if ready then push memory q packet (length packet) d else q)
