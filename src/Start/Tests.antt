-- ===== src/Start/Tests.antt =====
-- Node 2 of 3, and a start whose TUN device cannot be set up.
use routing_mesh.Prelude.{
  ℕ, ◌+◌, ◌-◌, ◌*◌, ◌/◌, ◌<◌, ◌≡◌, ◌↔◌, refl, true, false, none, some, [], ◌∷◌, arith,
}
use routing_mesh.Prelude.Int.{pos}
use routing_mesh.Sync.{within}
use routing_mesh.Sync.Slot.{IsValid}
use routing_mesh.Sync.Tests.{fixed, blank}
use routing_mesh.Start.{
  Boot, Started, runs, after_init, started, bound, with_socket, node_init, main, listen_on,
  tun_open, tun_from, configure, or_close, close_fd,
}
use routing_mesh.Start.Accepted.{
  left_open, node_init-open, node_init-slot, is_running, can_start, Allowed,
}
use routing_mesh.Start.Main.{main_runs}

abbrev pub boot : Boot
boot = record {
  memory = true;
  udp_socket = some 3;
  bind_udp = true;
  tcp_socket = some 4;
  bind_tcp = true;
  tun = record {
    open_tun = some 5;
    set_iff = true;
    socket = some 6;
    set_addr = true;
    set_netmask = false;
    get_flags = true;
    set_flags = true;
  };
}

node_init-open_example :
    let r = node_init fixed fixed blank 100 7 boot 2 3 (9 ∷ []) in r.1 ≡ left_open r.0 (9 ∷ [])
node_init-open_example = node_init-open fixed fixed blank 100 7 boot 2 3 (9 ∷ [])

abbrev pub second : Started fixed fixed
second = started fixed fixed blank 100 7 2 3 3 (some 4) none

second-init : (node_init fixed fixed blank 100 7 boot 2 3 []).0 ≡ some second
unfolding node_init with_socket bound listen_on tun_open tun_from configure or_close close_fd
second-init = refl

node_init-slot_example :
    IsValid second.sync
    × (second.sync.begin_ms ≡ 50 * (2 - 1))
    × ((t : ℕ) → t < 50 * 3 → (within second.sync t ≡ true) ↔ (t / 50 + 1 ≡ 2))
node_init-slot_example =
    node_init-slot fixed fixed blank 100 7 boot 2 3 [] second (omega arith) (omega arith)
      (omega arith) (omega arith) second-init

main_runs_example :
    let r = main fixed fixed blank 100 7 boot 3 (pos 2) (pos 3) [] in
    ((is_running r.0 ≡ true) ↔ (Allowed 3 (pos 2) (pos 3) × (can_start boot (some 3) ≡ true)))
    × (is_running r.0 ≡ false → r.1 ≡ [])
main_runs_example = main_runs fixed fixed blank 100 7 boot 3 (pos 2) (pos 3) []

pub main-second : (main fixed fixed blank 100 7 boot 3 (pos 2) (pos 3) []).0 ≡ runs second
unfolding main after_init node_init with_socket bound listen_on tun_open tun_from configure or_close
    close_fd
main-second = refl
