-- ===== src/TxQueue.antt =====
-- tx_queue.c: the packets that wait for this node's slot. The linked list from head to tail is a List,
-- the lock makes each operation one step.
pub mod Order
mod Tests
use routing_mesh.Prelude.{
  ℕ, zero, suc, ◌+◌, ◌-◌, Bool, true, false, ◌||◌, Option, none, some, List, [], ◌∷◌, ◌++◌, leb,
  ltb, ◌==◌, if◌then◌else◌, length, take,
}

abbrev pub capacity : ℕ
capacity = 64

abbrev pub max_pkt_size : ℕ
max_pkt_size = 2048

-- `tx_pkt_t` without its link
pub record Pkt : Type 0 where
  pub bytes : List ℕ
  pub len : ℕ
  pub dst_id : ℕ

-- `tx_queue_t`
pub record TxQueue : Type 0 where
  pub packets : List Pkt
  pub count : ℕ

-- `tx_queue_create`
abbrev pub create : TxQueue
create = record { packets = []; count = 0 }

-- the packet behind the head
abbrev pub rest : List Pkt → List Pkt
rest [] = []
rest (p ∷ ps) = ps

-- the oldest packet goes when the queue is full
pub drop_oldest : TxQueue → TxQueue
drop_oldest q =
    if leb capacity q.count then record { packets = rest q.packets; count = q.count - 1 } else q

-- `tx_queue_push`; `memory` says whether malloc gives a packet
pub push : Bool → TxQueue → List ℕ → ℕ → ℕ → TxQueue
push memory q bytes len dst_id =
    let q' = drop_oldest q in
    if len == 0 || ltb max_pkt_size len
    then q
    else (if memory
        then record {
          packets =
              q'.packets ++ record { bytes = take len bytes; len = len; dst_id = dst_id } ∷ [];
          count = q'.count + 1;
        }
        else q')

-- `tx_queue_pop`, by the packet at the head
unfoldable pub pop_from : ℕ → List Pkt → Option Pkt × TxQueue
pop_from count [] = (none, record { packets = []; count = count })
pop_from count (p ∷ ps) = (some p, record { packets = ps; count = count - 1 })

unfoldable pub pop : TxQueue → Option Pkt × TxQueue
pop q = pop_from q.count q.packets

-- `tx_queue_size`
abbrev pub size : TxQueue → ℕ
size q = q.count

-- `tx_queue_flush`
pub flush : TxQueue → TxQueue
flush q = record { packets = []; count = 0 }
