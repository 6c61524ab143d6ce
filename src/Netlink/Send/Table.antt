-- ===== src/Netlink/Send/Table.antt =====
-- The routes that the calls of routing.c leave in the kernel, where the kernel serves requests as rtnetlink documents.
use routing_mesh.Prelude.{
  ℕ, zero, suc, ◌+◌, ◌≤◌, ◌<◌, ◌≡◌, refl, ap, ◌∙◌, Bool, true, false, ◌&&◌, not, Option, none, some,
  List, [], ◌∷◌, arith, leb, ◌==◌, if◌then◌else◌, upd, ℕ_discrete,
}
use routing_mesh.Routing.{KernelCall, flush, add}
use routing_mesh.Netlink.{
  Abi, System, Kind, rta_table, rta_dst, rta_gateway, rta_oif, Attr, Request, request, add_attr,
  add_address, add_interface, add_route_attrs, ip_route_add, ip_route_add_t, ip_route_del,
  flush_from, ip_route_flush_mesh, table_main,
}
use routing_mesh.Netlink.Send.{
  Kernel, nl_send, on_socket, after_sendmsg, send_request, send_all, Names, relay_table, perform,
}

unfoldable pub code : Kind → ℕ
code rta_table = 0
code rta_dst = 1
code rta_gateway = 2
code rta_oif = 3

-- the value of the attribute of a kind
unfoldable pub value_of : Kind → List Attr → Option ℕ
value_of k [] = none
value_of k (a ∷ l) = if code a.kind == code k then some a.value else value_of k l

-- whether a route, its gateway and interface, leads through an interface
unfoldable pub through : ℕ → Option (ℕ × ℕ) → Bool
through o none = false
through o (some r) = r.1 == o

-- the /32 routes of a table; requests arrive, and the gateways in use are reachable
pub record Serves {K : Type 0} (kernel : Kernel K) : Type 0 where
  pub route : K → ℕ → ℕ → Option (ℕ × ℕ)
  pub serve : K → Request → K
  pub fd : K → ℕ
  pub opens : (k : K) → kernel.socket k ≡ some (fd k)
  pub sends : (k : K) (r : Request) → kernel.sendmsg k r ≡ some (serve k r)
  pub adds :
      (k : K) (r : Request) (a g o t x : ℕ)
      → r.new_route ≡ true
      → r.dst_len ≡ 32
      → 0 < r.table
      → value_of rta_dst r.attrs ≡ some a
      → value_of rta_gateway r.attrs ≡ some g
      → value_of rta_oif r.attrs ≡ some o
      → route (serve k r) t x ≡ (if t == r.table && x == a then some (g, o) else route k t x)
  pub deletes :
      (k : K) (r : Request) (a o t x : ℕ)
      → r.new_route ≡ false
      → r.dst_len ≡ 32
      → 0 < r.table
      → value_of rta_dst r.attrs ≡ some a
      → value_of rta_oif r.attrs ≡ some o
      → route (serve k r) t x
        ≡ (if t == r.table && x == a && through o (route k t x) then none else route k t x)
  pub flushes :
      (k : K) (t u x : ℕ)
      → route (kernel.flush_table k t) u x ≡ (if u == t then none else route k u x)

-- the addresses and the interfaces behind the names
pub record Resolves {S : Type 0} (sys : System S) (names : Names S) : Type 0 where
  pub mesh_ip : ℕ → ℕ
  pub phy_ip : ℕ → ℕ
  pub mesh_index : ℕ
  pub phy_index : ℕ
  pub mesh_text : (d : ℕ) → sys.pton (names.mesh_address d) ≡ some (mesh_ip d)
  pub phy_text : (d : ℕ) → sys.pton (names.phy_address d) ≡ some (phy_ip d)
  pub mesh_found : sys.index names.mesh_iface ≡ suc mesh_index
  pub phy_found : sys.index names.phy_iface ≡ suc phy_index
  pub mesh_apart : (a b : ℕ) → a < 256 → b < 256 → mesh_ip a ≡ mesh_ip b → a ≡ b

-- the next hops to the nodes, in the main table and in that for relayed packets
pub record Hops : Type 0 where
  pub main : ℕ → Option ℕ
  pub relay : ℕ → Option ℕ

-- what a call is to do to them
unfoldable pub run : KernelCall → Hops → Hops
run (flush n) s = record {
  main = λ d. if leb 1 d && leb d n then none else s.main d;
  relay = λ _. none;
}
run (add d h) s = record { main = upd s.main d (some h); relay = upd s.relay d (some h) }

-- arguments in a byte; the byte that counts the deletions passes every n below 255 only
unfoldable pub InByte : KernelCall → Type 0
InByte (flush n) = n < 255
InByte (add d h) = d < 256

unfoldable pub to : (ℕ → ℕ) → ℕ → Option ℕ → Option (ℕ × ℕ)
to ip o none = none
to ip o (some h) = some (ip h, o)

module _ {K S : Type 0} (kernel : Kernel K) (abi : Abi) (sys : System S) (names : Names S)
    (ok : Serves kernel) (at : Resolves sys names) where
  -- the kernel has the routes of the nodes 0 to 255 that lead to these next hops, and no others
  pub record Shows (k : K) (s : Hops) : Type 0 where
    pub in_main :
        (d : ℕ)
        → d < 256
        → ok.route k table_main (at.mesh_ip d) ≡ to at.mesh_ip (suc at.mesh_index) (s.main d)
    pub in_relay :
        (d : ℕ)
        → d < 256
        → ok.route k relay_table (at.mesh_ip d) ≡ to at.phy_ip (suc at.phy_index) (s.relay d)

  sent : (k : K) (r : Request) → (send_request kernel (some r) k).1 ≡ ok.serve k r
  unfolding send_request nl_send on_socket after_sendmsg
  sent k r = rw (ok.opens k, ok.sends k r)

  found : (i o : ℕ) → i ≡ suc o → (i == 0) ≡ false
  found i o e = ground arith

  added :
      (k : K) (dest gw iface : S) (a g o table t x : ℕ)
      → sys.pton dest ≡ some a
      → sys.pton gw ≡ some g
      → sys.index iface ≡ suc o
      → 0 < table
      → ok.route
          (send_request kernel (add_route_attrs abi sys dest gw iface (request abi true table)) k).1
          t
          x
        ≡ (if t == table && x == a then some (g, suc o) else ok.route k t x)
  unfolding add_route_attrs add_address add_interface request add_attr value_of code
  added k dest gw iface a g o table t x pa pg po pos =
      rw (pa, pg, found (sys.index iface) o po)
        (ap (λ z. ok.route z t x) (sent k _)
          ∙ ok.adds k _ a g (suc o) t x refl refl pos refl refl (ap some po))

  deleted :
      (k : K) (dest iface : S) (a o t x : ℕ)
      → sys.pton dest ≡ some a
      → sys.index iface ≡ suc o
      → ok.route (send_request kernel (ip_route_del abi sys dest iface) k).1 t x ≡ (
          if t == table_main && x == a && through (suc o) (ok.route k t x)
          then none
          else ok.route k t x)
  unfolding ip_route_del add_address add_interface request add_attr value_of code
  deleted k dest iface a o t x pa po =
      rw (pa, found (sys.index iface) o po)
        (ap (λ z. ok.route z t x) (sent k _)
          ∙ ok.deletes k _ a (suc o) t x refl refl (omega arith) refl (ap some po))

  same_ip : (a b : ℕ) → a < 256 → b < 256 → (at.mesh_ip a == at.mesh_ip b) ≡ (a == b)
  same_ip a b la lb = elim (ℕ_discrete a b) [
    | yes same ↦ ground (arith, ap at.mesh_ip same)
    | no differ ↦ ground (arith, at.mesh_apart a b la lb)
  ]

  -- the first of the two requests, and the second behind it
  main_set :
      (k : K) (d h t x : ℕ)
      → d < 256
      → x < 256
      → ok.route
          (send_request kernel
            (ip_route_add abi sys (names.mesh_address d) (names.mesh_address h) names.mesh_iface)
            k).1
          t
          (at.mesh_ip x)
        ≡ (if t == table_main && x == d
            then some (at.mesh_ip h, suc at.mesh_index)
            else ok.route k t (at.mesh_ip x))
  unfolding ip_route_add
  main_set k d h t x ld lx =
      added k (names.mesh_address d) (names.mesh_address h) names.mesh_iface (at.mesh_ip d)
        (at.mesh_ip h) at.mesh_index table_main t (at.mesh_ip x) (at.mesh_text d) (at.mesh_text h)
        at.mesh_found (omega arith)
      ∙ ap
          (λ b.
            if t == table_main && b
            then some (at.mesh_ip h, suc at.mesh_index)
            else ok.route k t (at.mesh_ip x))
          (same_ip x d lx ld)

  relay_set :
      (k : K) (d h t x : ℕ)
      → d < 256
      → x < 256
      → ok.route
          (send_request kernel
            (ip_route_add_t abi sys
              (names.mesh_address d)
              (names.phy_address h)
              names.phy_iface
              relay_table)
            k).1
          t
          (at.mesh_ip x)
        ≡ (if t == relay_table && x == d
            then some (at.phy_ip h, suc at.phy_index)
            else ok.route k t (at.mesh_ip x))
  unfolding ip_route_add_t
  relay_set k d h t x ld lx =
      added k (names.mesh_address d) (names.phy_address h) names.phy_iface (at.mesh_ip d)
        (at.phy_ip h) at.phy_index relay_table t (at.mesh_ip x) (at.mesh_text d) (at.phy_text h)
        at.phy_found (omega arith)
      ∙ ap
          (λ b.
            if t == relay_table && b
            then some (at.phy_ip h, suc at.phy_index)
            else ok.route k t (at.mesh_ip x))
          (same_ip x d lx ld)

  -- one next hop more
  to-upd :
      (ip : ℕ → ℕ) (o d h x : ℕ) (f : ℕ → Option ℕ)
      → (if x == d then some (ip h, o) else to ip o (f x)) ≡ to ip o (upd f d (some h) x)
  unfolding to
  to-upd ip o d h x f = elim (ℕ_discrete x d) [
    | yes same ↦ ground (arith, same)
    | no differ ↦ ground (arith, differ)
  ]

  add-Shows :
      (k : K) (s : Hops) (d h : ℕ)
      → d < 256
      → Shows k s
      → Shows (perform kernel abi sys names (add d h) k) (run (add d h) s)
  unfolding perform run send_all
  add-Shows k s d h byte p = record {
    in_main = λ x lx.
        relay_set _ d h table_main x byte lx
        ∙ main_set k d h table_main x byte lx
        ∙ ap (λ r. if x == d then some (at.mesh_ip h, suc at.mesh_index) else r) (p.in_main x lx)
        ∙ to-upd at.mesh_ip (suc at.mesh_index) d h x s.main;
    in_relay = λ x lx.
        relay_set _ d h relay_table x byte lx
        ∙ ap (λ r. if x == d then some (at.phy_ip h, suc at.phy_index) else r)
            (main_set k d h relay_table x byte lx ∙ p.in_relay x lx)
        ∙ to-upd at.phy_ip (suc at.phy_index) d h x s.relay;
  }

  cut :
      (b : Bool) (ip : ℕ → ℕ) (o : ℕ) (m : Option ℕ)
      → (if b && through o (to ip o m) then none else to ip o m) ≡ to ip o (if b then none else m)
  unfolding to through
  cut false ip o m = refl
  cut true ip o none = refl
  cut true ip o (some h) = ground arith

  -- a deletion
  cleared :
      (k : K) (s : Hops) (i x : ℕ)
      → i < 256
      → x < 256
      → Shows k s
      → ok.route
          (send_request kernel (ip_route_del abi sys (names.mesh_address i) names.mesh_iface) k).1
          table_main
          (at.mesh_ip x)
        ≡ to at.mesh_ip (suc at.mesh_index) (if x == i then none else s.main x)
  cleared k s i x li lx p =
      deleted k (names.mesh_address i) names.mesh_iface (at.mesh_ip i) at.mesh_index table_main
        (at.mesh_ip x) (at.mesh_text i) at.mesh_found
      ∙ ap
          (λ b.
            if b && through (suc at.mesh_index) (ok.route k table_main (at.mesh_ip x))
            then none
            else ok.route k table_main (at.mesh_ip x))
          (same_ip x i lx li)
      ∙ ap (λ r. if x == i && through (suc at.mesh_index) r then none else r) (p.in_main x lx)
      ∙ cut (x == i) at.mesh_ip (suc at.mesh_index) (s.main x)

  -- the loop of the deletions
  deletions :
      (k : K) (s : Hops) (c i : ℕ)
      → i + c ≤ 256
      → Shows k s
      → Shows
          (send_all kernel (flush_from abi sys names.mesh_address names.mesh_iface c i) k)
          (record s { main = λ d. if leb i d && not (leb (i + c) d) then none else s.main d })
  unfolding flush_from send_all
  deletions k s zero i low p = record {
    in_main = λ x lx. p.in_main x lx ∙ ap (to at.mesh_ip (suc at.mesh_index)) (ground arith);
    in_relay = p.in_relay;
  }
  deletions k s (suc c) i low p =
      let ih =
        deletions
          (send_request kernel (ip_route_del abi sys (names.mesh_address i) names.mesh_iface) k).1
          (record s { main = λ d. if d == i then none else s.main d }) c (i + 1) (omega arith)
          (record {
            in_main = λ x lx. cleared k s i x (omega arith) lx p;
            in_relay = λ x lx.
                deleted k (names.mesh_address i) names.mesh_iface (at.mesh_ip i) at.mesh_index
                  relay_table (at.mesh_ip x) (at.mesh_text i) at.mesh_found
                ∙ p.in_relay x lx;
          }) in
      record {
        in_main = λ x lx. ih.in_main x lx ∙ ap (to at.mesh_ip (suc at.mesh_index)) (ground arith);
        in_relay = ih.in_relay;
      }

  -- what a call does to the kernel's routes
  pub perform-Shows :
      (c : KernelCall) (k : K) (s : Hops)
      → InByte c
      → Shows k s
      → Shows (perform kernel abi sys names c k) (run c s)
  unfolding InByte perform run to ip_route_flush_mesh
  perform-Shows (add d h) k s b p = add-Shows k s d h b p
  perform-Shows (flush n) k s b p =
      let ih = deletions k s n 1 (omega arith) p in
      record {
        in_main = λ x lx.
            ok.flushes _ relay_table table_main (at.mesh_ip x)
            ∙ ih.in_main x lx
            ∙ ap (to at.mesh_ip (suc at.mesh_index)) (ground arith);
        in_relay = λ x lx. ok.flushes _ relay_table relay_table (at.mesh_ip x) ∙ ground arith;
      }
