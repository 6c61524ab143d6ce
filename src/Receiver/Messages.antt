-- ===== src/Receiver/Messages.antt =====
-- What goes to the TUN device.
use routing_mesh.Prelude.{
  ℕ, ◌≤◌, ◌≡◌, refl, inl, inr, Bool, true, false, ◌||◌, List, ◌∷◌, arith, ltb, ◌==◌, length, slice,
  length-slice, Bool-cases,
}
use routing_mesh.Prelude.Float.{Float}
use routing_mesh.Sync.Delay.{Rounding}
use routing_mesh.Matrix.Wire.{Layout}
use routing_mesh.Frame.{Processor, fill}
use routing_mesh.Receiver.{World, Clock, tun_write, deliver, on_datagram, receive_udp}

-- at most one packet more, of a size that IPv4 allows here, and none through a closed device
pub data OnePacket (opened : Bool) (before after : List (List ℕ)) : Type 0 where
  unchanged : after ≡ before → OnePacket opened before after
  written :
      (p : List ℕ)
      → after ≡ p ∷ before
      → opened ≡ true
      → 20 ≤ length p
      → length p ≤ 1500
      → OnePacket opened before after

tun_write-OnePacket :
    (opened : Bool) (tun : List (List ℕ)) (p : List ℕ)
    → length p ≤ 1500
    → OnePacket opened tun (tun_write opened tun p)
unfolding tun_write
tun_write-OnePacket false tun p h = unchanged refl
tun_write-OnePacket true tun p h = elim (Bool-cases (ltb (length p) 20)) [
  | inl small ↦ rw (tun_write, small) (unchanged refl)
  | inr fine ↦ rw (tun_write, fine) (written p refl refl (ground (arith, fine)) h)
]

module _ {D F : Float} (proc : Processor D.T) (l : Layout D.T) (R : Rounding D F) (fuel : ℕ)
    (wifi : ℕ → ℕ) where
  on_datagram-OnePacket :
      (w : World D F) (b : ℕ → ℕ) (n : ℕ)
      → OnePacket w.tun_open w.tun (on_datagram proc l R fuel wifi w b n).tun
  unfolding on_datagram deliver
  on_datagram-OnePacket w b n =
      let ip_len = proc.get16 (slice b 22 2) in
      elim (Bool-cases (ltb n 24)) [
        | inl short ↦ rw (on_datagram, short) (unchanged refl)
        | inr long ↦ elim (Bool-cases (ip_len == 0 || ltb 1500 ip_len)) [
          | inl bad ↦ rw (on_datagram, long, bad) (unchanged refl)
          | inr fine ↦
              rw (on_datagram, long, fine)
                (tun_write-OnePacket w.tun_open w.tun (slice b 24 ip_len)
                  (ground (arith, length-slice b 24 ip_len, fine)))
        ]
      ]

  -- A datagram that is not of type MATRIX, whatever its bytes are: at most one packet goes to the TUN device, of 20 to 1500
  -- bytes and only if the device is open. If it is not of type MSG_DATA either, the node stays as it was.
  pub datagram_written :
      (c : Clock D) (w : World D F) (buffer : ℕ → ℕ) (bytes : List ℕ)
      → (fill buffer bytes 0 == 1) ≡ false
      → let w' = (receive_udp proc l R fuel wifi c w buffer bytes).0 in
        OnePacket w.tun_open w.tun w'.tun × ((fill buffer bytes 0 == 2) ≡ false → w' ≡ w)
  unfolding receive_udp
  datagram_written c w buffer bytes other =
      let b = fill buffer bytes in
      elim (Bool-cases (length bytes == 0)) [
        | inl none_read ↦ rw (receive_udp, none_read) (unchanged refl, λ _. refl)
        | inr some_read ↦ elim (Bool-cases (b 0 == 2)) [
          | inl data_type ↦
              rw (receive_udp, some_read, other, data_type)
                (on_datagram-OnePacket w b (length bytes), λ h. absurd (ground (arith, h)))
          | inr unknown ↦ rw (receive_udp, some_read, other, unknown) (unchanged refl, λ _. refl)
        ]
      ]
