-- ===== src/Transmit/Slot/Heard.antt =====
-- A beacon, from the slot of one node to the matrix of another.
use routing_mesh.Prelude.{
  ℕ, zero, suc, ◌+◌, ◌≤◌, ◌<◌, ◌≡◌, sym, ap, ◌∙◌, inl, inr, not, ◌||◌, ◌&&◌, ◌++◌, arith, leb, ltb,
  ◌==◌, length, length-append, length-slice, slice, slice_ext, has, Bool-cases,
}
use routing_mesh.Prelude.Float.{Float}
use routing_mesh.Sync.Delay.{Rounding}
use routing_mesh.Matrix.{TdmaMatrix}
use routing_mesh.Matrix.Wire.{Layout, payload, payload_len, deserialize, serialize}
use routing_mesh.Matrix.Wire.RoundTrip.{deserialize-nodes}
use routing_mesh.Matrix.Wire.Sound.{serialize-IsSound}
use routing_mesh.Matrix.Sound.{IsSound, IsSound-few, ListsNodes, IsSound-ListsNodes}
use routing_mesh.Matrix.Update.Ids.{known}
use routing_mesh.Frame.{Processor, Header, header_bytes, fill}
use routing_mesh.Frame.Bytes.{At-append, At-get_or, fill-at}
use routing_mesh.Frame.Inversion.{get_or-slice}
use routing_mesh.Frame.RoundTrip.{length-header_bytes, header_first}
use routing_mesh.Receiver.{World, Clock, receive_udp}
use routing_mesh.Receiver.Beacon.{beacon_learned}
use routing_mesh.Transmit.Data.{Env}
use routing_mesh.Transmit.Slot.{Tx, destinations, beacon_header, beacon, tx_slot}

destinations-has :
    (me k i x : ℕ) → has x (destinations me k i) ≡ (leb i x && (ltb x (i + k) && not (x == me)))
unfolding destinations
destinations-has me zero i x = ground arith
destinations-has me (suc k) i x = elim (Bool-cases (i == me)) [
  | inl mine ↦ rw (destinations, mine) (ground (arith, mine, destinations-has me k (i + 1) x))
  | inr other ↦ rw (destinations, other) (ground (arith, other, destinations-has me k (i + 1) x))
]

-- the bytes behind the header, in the buffer of a receiver
payload_in_buffer :
    {X : Type 0} (proc : Processor X) (h : Header X) (p : ℕ → ℕ) (n z : ℕ) (buffer : ℕ → ℕ)
    → z < n
    → fill buffer (header_bytes proc h ++ slice p 0 n) (18 + z) ≡ p z
payload_in_buffer proc h p n z buffer lt =
    let bytes = header_bytes proc h ++ slice p 0 n in
    let size : length bytes ≡ 18 + n = omega (
      arith,
      length-append (header_bytes proc h) (slice p 0 n),
      length-header_bytes proc h,
      length-slice p 0 n,
    ) in
    fill-at bytes (18 + z) buffer (omega (arith, size, lt))
    ∙ At-get_or bytes (slice p 0 n) 18 z
        (At-append (header_bytes proc h) (slice p 0 n) 18 (length-header_bytes proc h))
    ∙ get_or-slice p 0 n z lt
    ∙ ap p (omega arith)

known-payload :
    {X : Type 0} (proc : Processor X) (l : Layout X) (h : Header X) (m : TdmaMatrix X)
    (buffer : ℕ → ℕ) (id : ℕ)
    → m.active ≤ 15
    → let b = fill buffer (header_bytes proc h ++ slice (payload l m) 0 (payload_len m.active)) in
      known (deserialize l (λ k. b (18 + k))) id ≡ known m id
known-payload proc l h m buffer id small =
    let n = payload_len m.active in
    let b = fill buffer (header_bytes proc h ++ slice (payload l m) 0 n) in
    let (count, ids) =
      deserialize-nodes l m (λ k. b (18 + k)) small
        (λ z lt. payload_in_buffer proc h (payload l m) n z buffer lt) in
    let t = deserialize l (λ k. b (18 + k)) in
    ap (λ k. has id (slice t.ids 0 k)) count
    ∙ ap (has id) (
        slice_ext t.ids m.ids 0 0 m.active
          (λ k lt. ap t.ids (omega arith) ∙ ids k lt ∙ ap m.ids (omega arith)))

payload-ListsNodes :
    {X : Type 0} (proc : Processor X) (l : Layout X) (h : Header X) (m : TdmaMatrix X)
    (buffer : ℕ → ℕ)
    → IsSound m
    → let b = fill buffer (header_bytes proc h ++ slice (payload l m) 0 (payload_len m.active)) in
      ListsNodes (deserialize l (λ k. b (18 + k)))
unfolding ListsNodes
payload-ListsNodes proc l h m buffer s =
    let n = payload_len m.active in
    let b = fill buffer (header_bytes proc h ++ slice (payload l m) 0 n) in
    let small = IsSound-few m s in
    let (count, ids) =
      deserialize-nodes l m (λ k. b (18 + k)) small
        (λ z lt. payload_in_buffer proc h (payload l m) n z buffer lt) in
    (
      omega (arith, count, small),
      λ id listed.
          (IsSound-ListsNodes m s).1 id (sym (known-payload proc l h m buffer id small) ∙ listed),
    )

module _ (D F : Float) (proc : Processor D.T) (l : Layout D.T) where
  -- The matrices of a sender and of a receiver list rising identifiers from 1 to 15, the node's own among them, and
  -- have no link from the node to itself. The beacon of a slot goes to every node from 1 to num_nodes but the sender.
  -- A node that receives it knows exactly the nodes that it knew and those of the matrix with which the sender leaves
  -- the slot, and its matrix has at most 15.
  pub beacon_heard :
      (R : Rounding D F) (fuel fuel' : ℕ) (wifi : ℕ → ℕ) (env : Env D.T D.T)
      (me num_nodes r now_us : ℕ) (now : D.T) (s : Tx D F) (c : Clock D) (w : World D F)
      (buffer : ℕ → ℕ)
      → IsSound s.matrix
      → IsSound w.matrix
      → let (s', dests, bytes) = tx_slot proc l env fuel me num_nodes r now_us now s in
        ((x : ℕ) → has x dests ≡ (leb 1 x && (leb x num_nodes && not (x == me))))
        × (let w' = (receive_udp proc l R fuel' wifi c w buffer bytes).0 in
            ((id : ℕ) → known w'.matrix id ≡ (known w.matrix id || known s'.matrix id))
            × (w'.matrix.active ≤ 15))
  unfolding tx_slot beacon beacon_header serialize
  beacon_heard R fuel fuel' wifi env me num_nodes r now_us now s c w buffer sent sound =
      let h = beacon_header proc l me now_us s in
      let m = (serialize D now l s.matrix).0 in
      let here = serialize-IsSound D now l s.matrix sent in
      let small : m.active ≤ 15 = IsSound-few m here in
      let bytes = header_bytes proc h ++ slice (payload l m) 0 (payload_len m.active) in
      let size =
        length-append (header_bytes proc h) (slice (payload l m) 0 (payload_len m.active)) in
      let head = length-header_bytes proc h in
      let (first, second) =
        header_first proc h (slice (payload l m) 0 (payload_len m.active)) buffer in
      let learned =
        beacon_learned proc l R fuel' wifi c w buffer bytes (omega (arith, size, head)) first sound
          (payload-ListsNodes proc l h m buffer here) in
      (
        λ x. destinations-has me num_nodes 1 x ∙ ground arith,
        (
          λ id.
              learned.0 id
              ∙ ap (λ b. known w.matrix id || b) (known-payload proc l h m buffer id small),
          learned.1,
        ),
      )
