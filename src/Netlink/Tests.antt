-- ===== src/Netlink/Tests.antt =====
-- A request with the sizes of Linux, at a concrete address.
use routing_mesh.Prelude.{ℕ, ◌+◌, ◌*◌, ◌/◌, ◌≤◌, ◌≡◌, refl, true, some, arith}
use routing_mesh.Netlink.{
  Abi, System, Request, add_attr, request, add_address, add_interface, add_route_attrs,
  ip_route_add_t, rta_dst, rta_gateway, rta_oif,
}
use routing_mesh.Netlink.Packed.{Behind, ip_route_add_t-fits}

abbrev pub linux : Abi
linux = record {
  msg_length = 28;
  align = λ n. (n + 3) / 4 * 4;
  rta_header = 4;
  align_low = λ n. omega arith;
  align_high = λ n. omega arith;
  header_small = omega arith;
}

-- addresses as numbers, and one interface
abbrev system : System ℕ
system = record { pton = λ a. some a; index = λ i. 3 }

abbrev sent : Request
sent =
    add_attr linux
      (add_attr linux (add_attr linux (request linux true 200) rta_dst 167772163) rta_gateway
        2886732290)
      rta_oif 3

sent_lem : ip_route_add_t linux system 167772163 2886732290 0 200 ≡ some sent
unfolding ip_route_add_t add_route_attrs add_address add_interface
sent_lem = refl

ip_route_add_t-fits_example : Behind linux sent.nlmsg_len sent.attrs × (sent.nlmsg_len ≤ 28 + 60)
ip_route_add_t-fits_example =
    ip_route_add_t-fits linux system 167772163 2886732290 0 200 sent sent_lem
