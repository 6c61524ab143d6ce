-- ===== src/Receiver/Beacon.antt =====
-- What a beacon changes.
use routing_mesh.Prelude.{
  ℕ, ◌+◌, ◌*◌, ◌/◌, ◌≤◌, ◌≡◌, refl, sym, ap, subst, ◌∙◌, inl, inr, false, ◌||◌, ◌&&◌, List, arith,
  leb, ◌==◌, if◌then◌else◌, length, slice, Bool-cases,
}
use routing_mesh.Prelude.Float.{Float}
use routing_mesh.Sync.{Sync, record_delay}
use routing_mesh.Sync.Gate.{record_delay-bounded, record_delay-begin}
use routing_mesh.Sync.Delay.{Rounding, compute_delay, sync_record_delay}
use routing_mesh.Matrix.{set_link_quality}
use routing_mesh.Matrix.Wire.{Layout, deserialize}
use routing_mesh.Matrix.Update.Ids.{known, update-known, same_known, set_link_quality-same}
use routing_mesh.Matrix.Sound.{IsSound, ListsNodes, SameMesh-IsSound}
use routing_mesh.Matrix.Update.Sound.{update-few}
use routing_mesh.Receiver.Parts.{heard_at-Kept, set_quality-Kept}
use routing_mesh.Frame.{Processor, fill}
use routing_mesh.WifiQuality.{wifi_quality_get}
use routing_mesh.Receiver.{World, Clock, merge, set_quality, heard_at, on_beacon, receive_udp}

module _ {D F : Float} where
  set_quality-known :
      (w : World D F) (sender quality id : ℕ)
      → known (set_quality w sender quality).matrix id ≡ known w.matrix id
  unfolding set_quality
  set_quality-known w sender quality id = elim (Bool-cases (quality == 0)) [
    | inl e ↦ rw (set_quality, e) refl
    | inr e ↦
        rw (set_quality, e)
          (same_known w.matrix (set_link_quality w.matrix sender quality) id
            (set_link_quality-same w.matrix sender quality))
  ]

  set_quality-rest :
      (w : World D F) (sender quality : ℕ)
      → let t = set_quality w sender quality in
        (t.sync ≡ w.sync) × (t.last_rx ≡ w.last_rx) × (t.tun ≡ w.tun)
  unfolding set_quality
  set_quality-rest w sender quality = elim (Bool-cases (quality == 0)) [
    | inl e ↦ rw e (refl, refl, refl)
    | inr e ↦ rw e (refl, refl, refl)
  ]

  heard_at-at :
      (round : ℕ) (w : World D F) (sender x : ℕ)
      → let t = heard_at round w sender in
        (t.last_rx x ≡ (if x == sender && leb sender 20 then round else w.last_rx x))
        × (t.sync ≡ w.sync)
        × (t.matrix ≡ w.matrix)
        × (t.tun ≡ w.tun)
  unfolding heard_at
  heard_at-at round w sender x = elim (Bool-cases (leb sender 20)) [
    | inl e ↦ rw (heard_at, e) (ground arith, refl, refl, refl)
    | inr e ↦ rw (heard_at, e) (ground arith, refl, refl, refl)
  ]

module _ {D F : Float} (proc : Processor D.T) (l : Layout D.T) (R : Rounding D F) (fuel : ℕ)
    (wifi : ℕ → ℕ) where
  pub on_beacon-tun :
      (c : Clock D) (w : World D F) (b : ℕ → ℕ) → (on_beacon proc l R fuel wifi c w b).tun ≡ w.tun
  unfolding on_beacon merge
  on_beacon-tun c w b =
      let w1 = heard_at (c.now_us / (w.sync.period * 1000)) w (b 1) in
      (set_quality-rest (record w1 { sync = _ }) (b 1) (wifi_quality_get wifi (b 1))).2
      ∙ (heard_at-at _ w (b 1) 0).3

  -- A datagram of type MATRIX that lists at most 15 nodes, with identifiers from 1 to 15, at a node whose matrix lists
  -- rising identifiers from 1 to 15, its own among them, and has no link from it to itself: the node knows exactly the
  -- nodes that it knew and those that the packet lists, and its matrix has at most 15; the frame of its arrival is
  -- kept for its sender, if that is at most 20, and for no other; the delays stay at most 64 if they were, the slot
  -- begins where it did, and nothing goes to the TUN device.
  pub beacon_learned :
      (c : Clock D) (w : World D F) (buffer : ℕ → ℕ) (bytes : List ℕ)
      → 1 ≤ length bytes
      → fill buffer bytes 0 ≡ 1
      → IsSound w.matrix
      → ListsNodes (deserialize l (λ k. fill buffer bytes (18 + k)))
      → let b = fill buffer bytes in
        let new = deserialize l (λ k. b (18 + k)) in
        let w' = (receive_udp proc l R fuel wifi c w buffer bytes).0 in
        ((id : ℕ) → known w'.matrix id ≡ (known w.matrix id || known new id))
        × (w'.matrix.active ≤ 15)
        × ((x : ℕ)
            → w'.last_rx x ≡ (
                if x == b 1 && leb (b 1) 20
                then c.now_us / (w.sync.period * 1000)
                else w.last_rx x))
        × (length w.sync.delays ≤ 64 → length w'.sync.delays ≤ 64)
        × (w'.sync.begin_ms ≡ w.sync.begin_ms)
        × (w'.tun ≡ w.tun)
  unfolding receive_udp on_beacon merge sync_record_delay
  beacon_learned c w buffer bytes some_bytes type sound lists =
      let full : (length bytes == 0) ≡ false = ground (arith, some_bytes) in
      let b = fill buffer bytes in
      let sender = b 1 in
      let round = c.now_us / (w.sync.period * 1000) in
      let w1 = heard_at round w sender in
      let d =
        compute_delay D F R fuel w1.sync sender (l.get (λ k. b (6 + k))) (proc.get16 (slice b 14 2))
          c.sec c.nsec in
      let s = record_delay w1.sync d sender in
      let q = wifi_quality_get wifi sender in
      let w2 = set_quality (record w1 { sync = s }) sender q in
      let new = deserialize l (λ k. b (18 + k)) in
      let (sync2, last2, tun2) = set_quality-rest (record w1 { sync = s }) sender q in
      rw (receive_udp, full, type)
        (
          λ id.
              update-known D c.now sender w2.matrix w2.tree new id
              ∙ ap (λ x. x || known new id)
                  (set_quality-known (record w1 { sync = s }) sender q id
                    ∙ ap (λ m. known m id) ((heard_at-at round w sender 0).2)),
          update-few D c.now sender w2.matrix w2.tree new
              (SameMesh-IsSound w1.matrix w2.matrix
                (set_quality-Kept (record w1 { sync = s }) sender q).mesh
                (SameMesh-IsSound w.matrix w1.matrix (heard_at-Kept w round sender).mesh sound))
              lists,
          λ x. ap (λ f. f x) last2 ∙ (heard_at-at round w sender x).0,
          λ h.
              subst (λ (y : Sync F.T). length y.delays ≤ 64) (sym sync2)
                (record_delay-bounded w1.sync d sender (
                  subst (λ (y : Sync F.T). length y.delays ≤ 64)
                    (sym (heard_at-at round w sender 0).1) h)),
          ap (λ (y : Sync F.T). y.begin_ms) sync2
              ∙ record_delay-begin w1.sync d sender
              ∙ ap (λ (y : Sync F.T). y.begin_ms) ((heard_at-at round w sender 0).1),
          tun2 ∙ (heard_at-at round w sender 0).3,
        )
