-- ===== src/Sockets/Tests.antt =====
-- The socket theorems at a run in which the keepalive thread connects to a peer while the accept thread takes a
-- connection of that peer: the assignment of the keepalive thread loses the accepted descriptor 6.
use routing_mesh.Prelude.{ℕ, ◌+◌, ◌≡◌, refl, ◌⊎◌, true, none, some, arith, has}
use routing_mesh.Sockets.{
  Sockets, init, find_peer, accept, place, connect, install, destroy, accepts, places, connects,
  installs, Reach, start, next, close_entry, lose,
}
use routing_mesh.Sockets.Owners.{holds, sockets_owned}
use routing_mesh.Sockets.Destroy.{destroy_closes}

abbrev addresses : ℕ → ℕ
addresses i = i + 100

abbrev raced : Sockets
raced = install (place (accept (connect init 2 5) 6) 6 (find_peer addresses 102 3 1)) 5

raced-Reach : Reach 3 addresses raced
unfolding place close_entry install find_peer
raced-Reach =
    next
      (next
        (next (next start (connects 2 5 (omega arith) refl refl refl)) (accepts 6 refl refl refl))
        (places 6 102 refl refl))
      (installs 5 refl refl)

raced-lost : has 6 raced.overwritten ≡ true
unfolding install place close_entry find_peer lose
raced-lost = refl

idle : (raced.accepted ≡ none) × (raced.connected ≡ none)
unfolding install place close_entry find_peer
idle = (refl, refl)

sockets_owned_example :
    (raced.bad_closes ≡ 0)
    × ((i fd : ℕ) → raced.tcp_sockfd i ≡ some fd → raced.opened fd ≡ true)
    × ((i j fd : ℕ) → raced.tcp_sockfd i ≡ some fd → raced.tcp_sockfd j ≡ some fd → i ≡ j)
    × ((fd : ℕ)
        → raced.opened fd ≡ true
        → ((o : ℕ) × (holds raced o ≡ some fd)) ⊎ (has fd raced.overwritten ≡ true))
sockets_owned_example = sockets_owned 3 addresses raced raced-Reach

destroy_closes_example :
    ((destroy raced).bad_closes ≡ 0)
    × ((fd : ℕ) → (destroy raced).opened fd ≡ has fd raced.overwritten)
destroy_closes_example = destroy_closes 3 addresses raced (omega arith) raced-Reach idle.0 idle.1
