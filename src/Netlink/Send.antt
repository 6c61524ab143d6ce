-- ===== src/Netlink/Send.antt =====
-- ip_route_netlink.c, `nl_send`, and the calls by which routing.c changes the kernel's routes. The kernel is a parameter:
-- its sockets, what it does with a request, what it answers, and the shell's `ip route flush table`.
pub mod Table
pub mod Recomputed
pub mod Tests
use routing_mesh.Prelude.{
  ℕ, zero, suc, ◌+◌, ◌≡◌, refl, Bool, true, false, ◌&&◌, not, Option, none, some, List, [], ◌∷◌,
  ◌==◌, if◌then◌else◌,
}
use routing_mesh.Routing.{KernelCall, flush, add}
use routing_mesh.Netlink.{
  Abi, System, Kind, rta_table, rta_dst, rta_gateway, rta_oif, Attr, Request, ip_route_add,
  ip_route_add_t, ip_route_del, ip_route_flush_mesh,
}

-- the answer of the kernel: whether it is NLMSG_ERROR, and the absolute value of its `error`, which is not positive
pub record Reply : Type 0 where
  pub is_error : Bool
  pub error : ℕ

pub record Kernel (K : Type 0) : Type 0 where
  pub socket : K → Option ℕ
  pub sendmsg : K → Request → Option K
  pub recv : K → Option Reply
  pub flush_table : K → ℕ → K

-- EEXIST
abbrev pub eexist : ℕ
eexist = 17

-- the return value for an answer: a route that is there already is no error
pub answered : Option Reply → Bool
answered none = false
answered (some r) = not (r.is_error && (not (r.error == 0) && not (r.error == eexist)))

module _ {K : Type 0} (kernel : Kernel K) where
  pub after_sendmsg : K → Option K → Bool × K
  after_sendmsg k none = (false, k)
  after_sendmsg k (some k') = (answered (kernel.recv k'), k')

  -- behind the socket
  pub on_socket : Request → K → Option ℕ → Bool × K
  on_socket req k none = (false, k)
  on_socket req k (some fd) = after_sendmsg k (kernel.sendmsg k req)

  -- `nl_send`: whether it returns 0, and the kernel's state
  pub nl_send : Request → K → Bool × K
  nl_send req k = on_socket req k (kernel.socket k)

  -- a request of ip_route_add, ip_route_add_t or ip_route_del
  pub send_request : Option Request → K → Bool × K
  send_request none k = (false, k)
  send_request (some req) k = nl_send req k

  -- requests in their order, whose results nobody reads
  pub send_all : List (Option Request) → K → K
  send_all [] k = k
  send_all (r ∷ rs) k = send_all rs (send_request r k).1

-- what `routing_manager_recompute` writes: the texts of the addresses of node d on the mesh and on the wireless
-- interface, and the names of both interfaces
pub record Names (S : Type 0) : Type 0 where
  pub mesh_address : ℕ → S
  pub phy_address : ℕ → S
  pub mesh_iface : S
  pub phy_iface : S

-- the table for relayed packets
abbrev pub relay_table : ℕ
relay_table = 200

module _ {K S : Type 0} (kernel : Kernel K) (abi : Abi) (sys : System S) (names : Names S) where
  -- `ip_route_flush_mesh`, and the two routes of a destination
  pub perform : KernelCall → K → K
  perform (flush n) k =
      kernel.flush_table
        (send_all kernel (ip_route_flush_mesh abi sys names.mesh_address names.mesh_iface n) k)
        relay_table
  perform (add d h) k =
      send_all kernel
        (ip_route_add abi sys (names.mesh_address d) (names.mesh_address h) names.mesh_iface
          ∷ ip_route_add_t abi sys (names.mesh_address d) (names.phy_address h) names.phy_iface
              relay_table
          ∷ [])
        k

  -- the calls of a manager, the latest of which is the first
  unfoldable pub perform_all : List KernelCall → K → K
  perform_all [] k = k
  perform_all (c ∷ cs) k = perform c (perform_all cs k)
