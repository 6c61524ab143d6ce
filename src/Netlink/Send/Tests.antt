-- ===== src/Netlink/Send/Tests.antt =====
-- A kernel that serves every request, and the calls of node 2 in a row of four.
use routing_mesh.Prelude.{
  ℕ, ◌+◌, ◌%◌, ◌^◌, ◌≡◌, refl, true, false, ◌&&◌, Option, none, some, arith, ◌==◌, if◌then◌else◌,
}
use routing_mesh.Netlink.{System, Request, rta_dst, rta_gateway, rta_oif, table_main}
use routing_mesh.Netlink.Send.{Kernel, Names, relay_table, perform_all}
use routing_mesh.Netlink.Send.Table.{Serves, Resolves, Shows, to, value_of, through}
use routing_mesh.Netlink.Send.Recomputed.{recompute-routes}
use routing_mesh.Netlink.Tests.{linux}
use routing_mesh.Routing.{recompute}
use routing_mesh.Routing.Tests.{row, row-Distinct, manager}

-- the routes of every table
abbrev pub Routes : Type 0
Routes = ℕ → ℕ → Option (ℕ × ℕ)

abbrev pub served : Routes → Request → Option ℕ → Option ℕ → Option ℕ → Routes
served k r none g o = k
served k r (some a) g none = k
served k r (some a) none (some o) =
    λ t x. if t == r.table && x == a && through o (k t x) then none else k t x
served k r (some a) (some g) (some o) = λ t x.
    if r.new_route
    then (if t == r.table && x == a then some (g, o) else k t x)
    else (if t == r.table && x == a && through o (k t x) then none else k t x)

abbrev pub serving : Routes → Request → Routes
serving k r =
    served k r (value_of rta_dst r.attrs) (value_of rta_gateway r.attrs) (value_of rta_oif r.attrs)

abbrev pub kernel : Kernel Routes
kernel = record {
  socket = λ k. some 3;
  sendmsg = λ k r. some (serving k r);
  recv = λ k. some (record { is_error = true; error = 0 });
  flush_table = λ k t u x. if u == t then none else k u x;
}

unfoldable pub kernel-Serves : Serves kernel
kernel-Serves = record {
  route = λ k. k;
  serve = serving;
  fd = λ k. 3;
  opens = λ k. refl;
  sends = λ k r. refl;
  adds = λ k r a g o t x new host pos d w i. rw (d, w, i, new) refl;
  deletes = λ k r a o t x new host pos d i.
      rw (d, i) (removed k r a o t x new (value_of rta_gateway r.attrs));
  flushes = λ k t u x. refl;
}
  where
    removed :
        (k : Routes) (r : Request) (a o t x : ℕ)
        → r.new_route ≡ false
        → (g : Option ℕ)
        → served k r (some a) g (some o) t x
          ≡ (if t == r.table && x == a && through o (k t x) then none else k t x)
    removed k r a o t x new none = refl
    removed k r a o t x new (some g) = rw new refl

-- addresses as numbers
abbrev pub addresses : System ℕ
addresses = record { pton = λ a. some a; index = λ i. i + 2 }

abbrev pub names : Names ℕ
names = record {
  mesh_address = λ d. 167772160 + d % 2 ^ 8;
  phy_address = λ d. 2886732288 + d % 2 ^ 8;
  mesh_iface = 1;
  phy_iface = 0;
}

unfoldable pub names-Resolves : Resolves addresses names
names-Resolves = record {
  mesh_ip = names.mesh_address;
  phy_ip = names.phy_address;
  mesh_index = 2;
  phy_index = 1;
  mesh_text = λ d. refl;
  phy_text = λ d. refl;
  mesh_found = refl;
  phy_found = refl;
  mesh_apart = λ a b la lb e. omega arith;
}

-- before, no route at all
abbrev pub empty : Routes
empty t x = none

pub empty-Shows :
    Shows kernel linux addresses names kernel-Serves names-Resolves empty
      (record { main = λ d. none; relay = λ d. none })
unfolding to kernel-Serves
empty-Shows = record { in_main = λ d b. refl; in_relay = λ d b. refl }

recompute-routes_example :
    let after = perform_all kernel linux addresses names (recompute manager row).kernel empty in
    let e = (recompute manager row).table 3 in
    let hop = if e.valid then some e.next_hop else none in
    (after table_main 167772164 ≡ to names.mesh_address 3 hop)
    × (after relay_table 167772164 ≡ to names.phy_address 2 hop)
unfolding kernel-Serves names-Resolves perform_all
recompute-routes_example =
    recompute-routes kernel linux addresses names kernel-Serves names-Resolves empty manager row
      (record { main = λ d. none; relay = λ d. none }) 3 row-Distinct (λ i h. omega arith)
      (omega arith) empty-Shows (omega arith) (omega arith)
