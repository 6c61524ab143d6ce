-- ===== src/Netlink.antt =====
-- ip_route_netlink.c: the requests for the kernel's routing tables. What the kernel's headers and the C library give
-- is a parameter: sizes and alignment (`Abi`), inet_pton and if_nametoindex. A request that is not sent is `none`.
pub mod Packed
pub mod Send
pub mod Tests
use routing_mesh.Prelude.{
  ℕ, zero, suc, ◌+◌, ◌≤◌, Bool, true, false, Option, none, some, List, [], ◌∷◌, leb, ltb, ◌==◌,
  if◌then◌else◌,
}

-- a chain of steps that stops at the first that fails
infixl 1 ◌>>=◌
abbrev pub ◌>>=◌ {ℓ} : {A B : Type ℓ} → Option A → (A → Option B) → Option B
none >>= f = none
some a >>= f = f a

-- NLMSG_LENGTH(sizeof(struct rtmsg)), NLMSG_ALIGN and RTA_LENGTH(n) = rta_header + n, as documented: aligned upwards by at
-- most three bytes; the header of an attribute has at most eight
pub record Abi : Type 0 where
  pub msg_length : ℕ
  pub align : ℕ → ℕ
  pub rta_header : ℕ
  pub align_low : (n : ℕ) → n ≤ align n
  pub align_high : (n : ℕ) → align n ≤ n + 3
  pub header_small : rta_header ≤ 8

pub data Kind : Type 0 where
  rta_table : Kind
  rta_dst : Kind
  rta_gateway : Kind
  rta_oif : Kind

-- an attribute: where it starts, its rta_len and its four bytes as a number
pub record Attr : Type 0 where
  pub at : ℕ
  pub kind : Kind
  pub rta_len : ℕ
  pub value : ℕ

-- `nl_route_req_t`: `new_route` is RTM_NEWROUTE; the attributes, the latest first
pub record Request : Type 0 where
  pub nlmsg_len : ℕ
  pub new_route : Bool
  pub dst_len : ℕ
  pub table : ℕ
  pub attrs : List Attr

-- RT_TABLE_MAIN and RT_TABLE_UNSPEC
abbrev pub table_main : ℕ
table_main = 254

abbrev pub table_unspec : ℕ
table_unspec = 0

-- `nl_add_attr` of four bytes
pub add_attr : Abi → Request → Kind → ℕ → Request
add_attr abi req kind value =
    let offset = abi.align req.nlmsg_len in
    record req {
      nlmsg_len = offset + (abi.rta_header + 4);
      attrs =
          record { at = offset; kind = kind; rta_len = abi.rta_header + 4; value = value }
          ∷ req.attrs;
    }

-- the headers of a request
pub request : Abi → Bool → ℕ → Request
request abi new_route table = record {
  nlmsg_len = abi.msg_length;
  new_route = new_route;
  dst_len = 32;
  table = table;
  attrs = [];
}

-- inet_pton of an address text, and if_nametoindex with 0 for no such interface
pub record System (S : Type 0) : Type 0 where
  pub pton : S → Option ℕ
  pub index : S → ℕ

module _ {S : Type 0} (abi : Abi) (sys : System S) where
  -- the attribute of an address, unless its text is invalid
  pub add_address : Kind → Option ℕ → Request → Option Request
  add_address kind none req = none
  add_address kind (some a) req = some (add_attr abi req kind a)

  -- the attribute of the outgoing interface, unless it is not found
  pub add_interface : S → Request → Option Request
  add_interface iface req =
      if sys.index iface == 0 then none else some (add_attr abi req rta_oif (sys.index iface))

  -- the three attributes of a route, up to the first that fails
  pub add_route_attrs : S → S → S → Request → Option Request
  add_route_attrs dest gw iface req = do
    r ← add_address rta_dst (sys.pton dest) req
    t ← add_address rta_gateway (sys.pton gw) r
    add_interface iface t

  -- `ip_route_add`
  pub ip_route_add : S → S → S → Option Request
  ip_route_add dest gw iface = add_route_attrs dest gw iface (request abi true table_main)

  -- `ip_route_add_t`
  pub ip_route_add_t : S → S → S → ℕ → Option Request
  ip_route_add_t dest gw iface table_id =
      let req = request abi true (if leb table_id 255 then table_id else table_unspec) in
      add_route_attrs dest gw iface
        (if ltb 255 table_id then add_attr abi req rta_table table_id else req)

  -- `ip_route_del`
  pub ip_route_del : S → S → Option Request
  ip_route_del dest iface = do
    r ← add_address rta_dst (sys.pton dest) (request abi false table_main)
    add_interface iface r

  -- `ip_route_flush_mesh`: the requests to delete the routes to nodes 1 to num_nodes, where `address` writes the text
  pub flush_from : (ℕ → S) → S → ℕ → ℕ → List (Option Request)
  flush_from address iface zero i = []
  flush_from address iface (suc k) i =
      ip_route_del (address i) iface ∷ flush_from address iface k (i + 1)

  pub ip_route_flush_mesh : (ℕ → S) → S → ℕ → List (Option Request)
  ip_route_flush_mesh address iface num_nodes = flush_from address iface num_nodes 1
