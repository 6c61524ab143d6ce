-- ===== src/Receiver.antt =====
-- node.c: what a received packet does to the node. `receiver_loop` takes datagrams, beacons above all; `tcp_rx_peer_loop`
-- hands on the messages of Frame. Recording a delay, setting a quality and merging a matrix are the calls of the other files.
pub mod Beacon
pub mod Messages
pub mod Parts
pub mod Tests
use routing_mesh.Prelude.{
  ℕ, ◌+◌, ◌*◌, ◌/◌, Bool, true, false, ◌||◌, List, [], ◌∷◌, leb, ltb, ◌==◌, if◌then◌else◌, length,
  slice, upd,
}
use routing_mesh.Prelude.Float.{Float}
use routing_mesh.Sync.{Sync}
use routing_mesh.Sync.Delay.{Rounding, sync_record_delay}
use routing_mesh.Matrix.{TdmaMatrix, set_link_quality}
use routing_mesh.Matrix.Wire.{Layout, deserialize}
use routing_mesh.Matrix.Update.{matrix_update}
use routing_mesh.Events.{EventQueue, topology_changed, push}
use routing_mesh.Pdr.{Pdr, pdr_update}
use routing_mesh.Frame.{Processor, Message, fill, msg_data, tdma_header_size, msg_data_hdr_wire}
use routing_mesh.WifiQuality.{wifi_quality_get}

-- MATRIX
abbrev pub matrix_type : ℕ
matrix_type = 1

-- g_last_rx_frame, the states of the other files, and the packets that were written to the TUN device, the latest first
pub record World (D F : Float) : Type 0 where
  pub last_rx : ℕ → ℕ
  pub sync : Sync F.T
  pub matrix : TdmaMatrix D.T
  pub tree : ℕ → ℕ → ℕ
  pub events : EventQueue
  pub pdr : Pdr F.T
  pub tun_open : Bool
  pub tun : List (List ℕ)

-- `tun_write` with ip_forward, which the loops call if the device is open
pub tun_write : Bool → List (List ℕ) → List ℕ → List (List ℕ)
tun_write false tun packet = tun
tun_write true tun packet = if ltb (length packet) 20 then tun else packet ∷ tun

module _ {D F : Float} where
  -- `matrix_update` on the globals of matrix.c
  pub merge : D.T → World D F → ℕ → TdmaMatrix D.T → World D F
  merge now w sender new =
      let (matrix, tree, changed) = matrix_update D now sender w.matrix w.tree new in
      record w {
        matrix = matrix;
        tree = tree;
        events =
            if changed
            then push w.events (record { type = topology_changed; node_id = sender })
            else w.events;
      }

  -- if (quality > 0) MATRIX_setLinkQuality
  pub set_quality : World D F → ℕ → ℕ → World D F
  set_quality w sender quality =
      if quality == 0 then w else record w { matrix = set_link_quality w.matrix sender quality }

  -- the frame in which a neighbour was last heard
  pub heard_at : ℕ → World D F → ℕ → World D F
  heard_at round w sender =
      if leb sender 20 then record w { last_rx = upd w.last_rx sender round } else w

  -- `pdr_update`, then the packet for the TUN device, for this node or to be relayed by the kernel
  unfoldable pub deliver : World D F → ℕ → ℕ → List ℕ → World D F
  deliver w src msg_id packet =
      let (pdr, matrix) = pdr_update F (w.pdr, w.matrix) src msg_id in
      record w { pdr = pdr; matrix = matrix; tun = tun_write w.tun_open w.tun packet }

  -- a message that `tcp_rx_peer_loop` has taken off its connection
  unfoldable pub on_message : World D F → Message → World D F
  on_message w d = deliver w d.src_id d.msg_id d.payload

-- get_time_us, clock_gettime and the time of the matrix
pub record Clock (D : Float) : Type 0 where
  pub now_us : ℕ
  pub sec : ℕ
  pub nsec : ℕ
  pub now : D.T

module _ {D F : Float} (proc : Processor D.T) (l : Layout D.T) (R : Rounding D F) (fuel : ℕ)
    (wifi : ℕ → ℕ) where
  -- the MATRIX branch of `receiver_loop`, on its buffer; a round is the period of the slot
  unfoldable pub on_beacon : Clock D → World D F → (ℕ → ℕ) → World D F
  on_beacon c w buffer =
      let sender = buffer 1 in
      let w1 = heard_at (c.now_us / (w.sync.period * 1000)) w sender in
      let sync =
        sync_record_delay D F R fuel w1.sync sender (l.get (λ k. buffer (6 + k)))
          (proc.get16 (slice buffer 14 2)) c.sec c.nsec in
      let w2 = set_quality (record w1 { sync = sync }) sender (wifi_quality_get wifi sender) in
      merge c.now w2 sender (deserialize l (λ k. buffer (tdma_header_size + k)))

  -- its MSG_DATA branch, on a datagram of n bytes
  unfoldable pub on_datagram : World D F → (ℕ → ℕ) → ℕ → World D F
  on_datagram w buffer n =
      let src = buffer 18 in
      let id = proc.get16 (slice buffer 20 2) in
      let ip_len = proc.get16 (slice buffer 22 2) in
      if ltb n (tdma_header_size + msg_data_hdr_wire)
      then w
      else (if ip_len == 0 || ltb 1500 ip_len
          then (let (pdr, matrix) = pdr_update F (w.pdr, w.matrix) src id in
              record w { pdr = pdr; matrix = matrix })
          else deliver w src id (slice buffer 24 ip_len))

  -- the body of `receiver_loop` on the bytes received
  unfoldable pub receive_udp : Clock D → World D F → (ℕ → ℕ) → List ℕ → World D F × (ℕ → ℕ)
  receive_udp c w buffer bytes =
      let buffer' = fill buffer bytes in
      if length bytes == 0
      then (w, buffer)
      else (if buffer' 0 == matrix_type
          then (on_beacon c w buffer', buffer')
          else (if buffer' 0 == msg_data
              then (on_datagram w buffer' (length bytes), buffer')
              else (w, buffer')))
