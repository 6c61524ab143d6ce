-- ===== src/Tun/Admitted.antt =====
-- A packet that is read keeps the queue within its capacity and counted.
use routing_mesh.Prelude.{Bool, ℕ, inl, inr, ◌||◌, List, ◌==◌, length, Bool-cases}
use routing_mesh.TxQueue.{TxQueue}
use routing_mesh.TxQueue.Order.{IsValid, push-IsValid}
use routing_mesh.Tun.{tun_get_dst_node, read_packet}

pub read_packet-IsValid :
    (ready memory : Bool) (me : ℕ) (q : TxQueue) (p : List ℕ)
    → IsValid q
    → IsValid (read_packet ready memory me q p)
unfolding read_packet
read_packet-IsValid ready memory me q p v =
    elim (Bool-cases (tun_get_dst_node p == 0 || tun_get_dst_node p == me)) [
      | inl mine ↦ rw (read_packet, mine) v
      | inr other ↦ elim (Bool-cases ready) [
        | inr early ↦ rw (read_packet, other, early) v
        | inl open_gate ↦
            rw (read_packet, other, open_gate)
              (push-IsValid memory q p (length p) (tun_get_dst_node p) v)
      ]
    ]
