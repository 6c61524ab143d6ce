-- ===== src/WifiQuality/Signal.antt =====
-- The quality grows with the signal.
use routing_mesh.Prelude.{ℕ, ◌-◌, ◌*◌, ◌/◌, ◌≤◌, ◌≡◌, true, arith, ltb, if◌then◌else◌}
use routing_mesh.Prelude.Int.{ℤ, pos, negsuc, ◌+ℤ◌, leb_ℤ}
use routing_mesh.WifiQuality.{wifi_rssi_to_quality}

-- the quality of -(n + 1) dBm
pub below_zero :
    (n : ℕ)
    → wifi_rssi_to_quality (negsuc n)
      ≡ (if ltb n 40 then 100 else if ltb 53 n then 0 else (54 - n) * 100 / 15)
unfolding wifi_rssi_to_quality ◌+ℤ◌
below_zero n = ground arith

at_most : (n : ℕ) → wifi_rssi_to_quality (negsuc n) ≤ 100
at_most n = ground (arith, below_zero n)

-- A stronger signal never gives a lower quality, and the quality is at most 100.
pub quality_grows :
    (a b : ℤ)
    → leb_ℤ a b ≡ true
    → (wifi_rssi_to_quality a ≤ wifi_rssi_to_quality b) × (wifi_rssi_to_quality b ≤ 100)
unfolding wifi_rssi_to_quality
quality_grows (negsuc m) (negsuc n) h = (ground (arith, below_zero m, below_zero n, h), at_most n)
quality_grows (negsuc m) (pos n) h = (ground (arith, at_most m), ground arith)
quality_grows (pos m) (pos n) h = (ground arith, ground arith)
quality_grows (pos m) (negsuc n) h = absurd (ground (arith, h))
