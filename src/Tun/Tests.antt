-- ===== src/Tun/Tests.antt =====
-- Two packets: one for node 3, and one that is too short.
use routing_mesh.Prelude.{ℕ, ◌≡◌, refl, List, [], ◌∷◌}
use routing_mesh.Tun.{tun_get_dst_node}

abbrev for_node_3 : List ℕ
for_node_3 = 69 ∷ 0 ∷ 0 ∷ 20 ∷ 0 ∷ 0 ∷ 0 ∷ 0 ∷ 64 ∷ 6 ∷ 0 ∷ 0 ∷ 10 ∷ 0 ∷ 0 ∷ 2 ∷ 10 ∷ 0 ∷ 0 ∷ 3 ∷ []

third : tun_get_dst_node for_node_3 ≡ 3
unfolding tun_get_dst_node
third = refl

too_short : tun_get_dst_node (69 ∷ 0 ∷ []) ≡ 0
unfolding tun_get_dst_node
too_short = refl
