-- ===== src/WifiQuality/Tests.antt =====
-- Signals at the limits and between them.
use routing_mesh.Prelude.{◌≡◌, refl}
use routing_mesh.Prelude.Int.{negsuc, ◌+ℤ◌}
use routing_mesh.WifiQuality.{wifi_rssi_to_quality}

rssi_40 : wifi_rssi_to_quality (negsuc 39) ≡ 100
unfolding wifi_rssi_to_quality
rssi_40 = refl

rssi_54 : wifi_rssi_to_quality (negsuc 53) ≡ 6
unfolding wifi_rssi_to_quality ◌+ℤ◌
rssi_54 = refl

rssi_55 : wifi_rssi_to_quality (negsuc 54) ≡ 0
unfolding wifi_rssi_to_quality
rssi_55 = refl
