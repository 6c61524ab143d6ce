-- ===== src/Lib.antt =====
-- The mesh node: TDMA slots over Wi-Fi, an adjacency matrix that the nodes exchange, a spanning tree over it, and IP
-- routes from the tree. The program is the C code of the directories src and include of the repository.
--
-- A beacon carries a node's matrix. The receiver records its delay (Sync), merges the matrix (Matrix.Update), which
-- computes the spanning tree (Matrix.Spanning) and reports a change of topology; the event handler then rebuilds the
-- routing table (Routing), which says where the packets that wait in the queue (TxQueue) go in this node's slot.
--
-- Prelude: shared names; lists, arrays as functions of the index, counted loops, and the parameters `Float` (the
--   operations of a C floating-point type) with signed numbers.
-- Sync: src/sync.c, the slot, its adjustment and the gate of the data plane; Delay is compute_delay.
-- Matrix: src/matrix.c, one record for tdma_matrix_t; Dead is removeDeadLinks, Wire is serializeMatrix and
--   deserializeMatrix, Update is matrix_update with discoverIds and copyLine, Spanning is primAlgorithm_weighted.
-- Routing: src/routing.c, from is_reachable_via_mst to routing_manager_lookup.
-- TxQueue: src/tx_queue.c.
-- Events: src/event_handler.c, the event queue and the handler.
-- Netlink: src/ip_route_netlink.c, the requests for the kernel's routing tables; Send is nl_send and the calls that
--   src/routing.c makes. The kernel is a parameter.
-- Loss: src/node.c, the window of received frames in tx_loop.
-- Sockets: src/node.c and src/event_handler.c, the TCP sockets that the threads share, as steps in any order.
-- Frame: src/node.c, the MSG_DATA frame of tx_loop and the rounds of tcp_rx_peer_loop, with src/include/msg_data.h.
-- Transmit: src/node.c, when tx_loop sends and until when; Data is its loop over the queue, Slot
--   the beacon and the end of a slot, Loop the turns of tx_loop, with what the other threads do between them as a function
--   that each turn gets.
-- Receiver: src/node.c, receiver_loop, and what a message does to the node.
-- WifiQuality: src/wifi_quality.c, the quality by the signal.
-- Start: src/main.c, node_init of src/node.c, tun_open of src/tun.c.
-- Node: src/node.c, node_run: the threads over the states of the files above, as steps in any order. Safe is what always
--   holds, Routes what the event handler leaves, Kernel the same with the kernel behind it.
-- Tun: src/tun.c and src/node.c, from a packet of the device to the queue.
-- Pdr: src/pdr.c, the delivery ratio from sequence numbers.
--
-- A function that holds its lock throughout is one step on an explicit state. The time, random numbers, the memory that
-- malloc gives and the format of floating-point numbers are arguments; what is assumed of a format is in
-- Sync.Adjust.Rounds. What the kernel answers is an argument: descriptors, sizes, failures.
-- Loops are recursion on their own bound. The search over the tree is on fuel: a call marks a node that was not marked, so
-- one more than the number of nodes is enough. The expiry loop is on fuel too: each round moves on or removes a node, so
-- the number of active nodes is enough. The loop that makes a delay positive is on fuel, as many rounds as periods are
-- missing. The MSG_DATA loop is on fuel: it ends when the clock has reached the end of the slot.
--
-- The arrays of the program have room for MAX_NODES = 20 nodes, and the payload of a beacon for 15; arrays are functions here.
-- So a theorem on received matrices is about at most 15 nodes with identifiers from 1 to 15, which is kept by every merge.
-- What the code does beyond that is not modelled. The linked lists of the two queues are lists; Events.Linked relates
-- that of src/event_handler.c to the memory.
--
-- Not modelled: the creation of threads, socket options and timeouts, external commands and what they print, the getters
-- of the matrix, printing; the ARP method, whose sources are not here.
pub mod Prelude
pub mod Sync
pub mod Sockets
pub mod Matrix
pub mod Routing
pub mod TxQueue
pub mod Netlink
pub mod Events
pub mod Loss
pub mod Pdr
pub mod Frame
pub mod Transmit
pub mod Tun
pub mod WifiQuality
pub mod Receiver
pub mod Start
pub mod Node
