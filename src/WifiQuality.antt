-- ===== src/WifiQuality.antt =====
-- wifi_quality.c: the quality of a link by its signal, and the table that the receiver asks.
pub mod Signal
mod Tests
use routing_mesh.Prelude.{ℕ, ◌+◌, ◌*◌, ◌/◌, ◌%◌, Bool, ◌||◌, ltb, ◌==◌, if◌then◌else◌}
use routing_mesh.Prelude.Int.{ℤ, pos, negsuc, ◌+ℤ◌, leb_ℤ, pos_part}

-- `wifi_rssi_to_quality`, of a signal in dBm; the sum in the last branch is positive
pub wifi_rssi_to_quality : ℤ → ℕ
wifi_rssi_to_quality rssi =
    if leb_ℤ (negsuc 39) rssi
    then 100
    else (if leb_ℤ rssi (negsuc 54) then 0 else pos_part (rssi +ℤ pos 55) * 100 / 15 % 256)

-- g_quality, which nothing writes
abbrev pub g_quality : ℕ → ℕ
g_quality node_id = 0

-- `wifi_quality_get`
pub wifi_quality_get : (ℕ → ℕ) → ℕ → ℕ
wifi_quality_get table node_id = if node_id == 0 || ltb 20 node_id then 0 else table node_id
