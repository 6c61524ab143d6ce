-- ===== src/TxQueue/Tests.antt =====
-- The queue's theorems at concrete inputs.
use routing_mesh.Prelude.{◌≡◌, List, [], ◌∷◌, arith, map}
use routing_mesh.TxQueue.{Pkt, create}
use routing_mesh.TxQueue.Order.{newest, stored, push_all, Fit, push_all-newest}

abbrev two : List Pkt
two =
    record { bytes = 9 ∷ 8 ∷ []; len = 2; dst_id = 3 }
    ∷ record { bytes = 7 ∷ []; len = 1; dst_id = 4 }
    ∷ []

two-Fit : Fit two
unfolding Fit
two-Fit = (omega arith, omega arith, (omega arith, omega arith, tt))

push_all-newest_example : (push_all create two).packets ≡ newest (map stored two)
push_all-newest_example = push_all-newest two two-Fit
