-- ===== src/Netlink/Packed.antt =====
-- The attributes of every request lie one behind the other in the request's buffer of 256 bytes.
use routing_mesh.Prelude.{
  ℕ, ◌+◌, ◌*◌, ◌≤◌, ◌≡◌, refl, sym, ◌∙◌, subst, inl, inr, Bool, true, false, Option, none, some,
  List, [], ◌∷◌, arith, leb, ltb, ◌==◌, if◌then◌else◌, Bool-cases, length,
}
use routing_mesh.Netlink.{
  ◌>>=◌, Abi, Kind, rta_table, rta_dst, rta_gateway, rta_oif, Attr, Request, System, add_attr,
  request, add_address, add_interface, add_route_attrs, ip_route_add_t, table_unspec,
}

-- the attributes end at `stop`, do not overlap, and start behind the headers
pub Behind : Abi → ℕ → List Attr → Type 0
Behind abi stop [] = abi.msg_length ≤ stop
Behind abi stop (a ∷ rest) = (a.at + a.rta_len ≤ stop) × Behind abi a.at rest

-- a request with at most n attributes, which fit
pub record Packed (abi : Abi) (n : ℕ) (r : Request) : Type 0 where
  pub behind : Behind abi r.nlmsg_len r.attrs
  pub many : length r.attrs ≤ n
  pub short : r.nlmsg_len ≤ abi.msg_length + 15 * length r.attrs

Behind-more : (abi : Abi) (l : List Attr) (a b : ℕ) → a ≤ b → Behind abi a l → Behind abi b l
unfolding Behind
Behind-more abi [] a b h p = omega arith
Behind-more abi (x ∷ l) a b h (p, q) = (omega arith, q)

add_attr-Packed :
    (abi : Abi) (n : ℕ) (r : Request) (k : Kind) (v : ℕ)
    → Packed abi n r
    → Packed abi (n + 1) (add_attr abi r k v)
unfolding add_attr Behind
add_attr-Packed abi n r k v p = record {
  behind = (
    omega arith,
    Behind-more abi r.attrs r.nlmsg_len (abi.align r.nlmsg_len) (abi.align_low r.nlmsg_len)
        p.behind,
  );
  many = omega (arith, p.many);
  short = omega (arith, p.short, abi.align_high r.nlmsg_len, abi.header_small);
}

request-Packed : (abi : Abi) (b : Bool) (t : ℕ) → Packed abi 0 (request abi b t)
unfolding request Behind
request-Packed abi b t = record { behind = omega arith; many = omega arith; short = omega arith }

module _ {S : Type 0} (abi : Abi) (sys : System S) where
  then_some :
      {A B : Type 0} (o : Option A) (f : A → Option B) (b : B)
      → (o >>= f) ≡ some b
      → (a : A) × (o ≡ some a) × (f a ≡ some b)
  then_some none f b e = cc
  then_some (some a) f b e = (a, refl, e)

  some-eq : {A : Type 0} (P : A → Type 0) (a b : A) → P a → some a ≡ some b → P b
  some-eq P a b p e = subst P (some-inj e) p
    where
      some-inj : some a ≡ some b → a ≡ b
      some-inj h = cc

  add_address-Packed :
      (n : ℕ) (k : Kind) (o : Option ℕ) (r t : Request)
      → Packed abi n r
      → add_address abi sys k o r ≡ some t
      → Packed abi (n + 1) t
  unfolding add_address
  add_address-Packed n k none r t p e = cc
  add_address-Packed n k (some a) r t p e =
      some-eq (Packed abi (n + 1)) (add_attr abi r k a) t (add_attr-Packed abi n r k a p) e

  add_interface-Packed :
      (n : ℕ) (iface : S) (r t : Request)
      → Packed abi n r
      → add_interface abi sys iface r ≡ some t
      → Packed abi (n + 1) t
  unfolding add_interface
  add_interface-Packed n iface r t p e = elim (Bool-cases (sys.index iface == 0)) [
    | inl missing ↦ absurd (ground (arith, e, missing))
    | inr there ↦
        some-eq (Packed abi (n + 1)) (add_attr abi r rta_oif (sys.index iface)) t
          (add_attr-Packed abi n r rta_oif (sys.index iface) p) (sym (given there) ∙ e)
  ]
    where
      given :
          (sys.index iface == 0) ≡ false
          → (if sys.index iface == 0 then none else some (add_attr abi r rta_oif (sys.index iface)))
            ≡ some (add_attr abi r rta_oif (sys.index iface))
      given h = rw h

  add_route_attrs-Packed :
      (n : ℕ) (dest gw iface : S) (r t : Request)
      → Packed abi n r
      → add_route_attrs abi sys dest gw iface r ≡ some t
      → Packed abi (n + 3) t
  unfolding add_route_attrs
  add_route_attrs-Packed n dest gw iface r t p e =
      let a = then_some _ _ t e in
      let b = then_some _ _ t (a.2) in
      let x = add_address-Packed n rta_dst (sys.pton dest) r (a.0) p (a.1) in
      let y = add_address-Packed (n + 1) rta_gateway (sys.pton gw) (a.0) (b.0) x (b.1) in
      let three : n + 1 + 1 + 1 ≡ n + 3 = omega arith in
      subst (λ k. Packed abi k t) three (add_interface-Packed (n + 1 + 1) iface (b.0) t y (b.2))

  -- The requests of ip_route_add_t, and so of ip_route_add, that are sent: at most four attributes, one behind the other
  -- after the headers without overlap, and no more than 60 bytes of the buffer's 256 behind the headers.
  pub ip_route_add_t-fits :
      (dest gw iface : S) (table_id : ℕ) (t : Request)
      → ip_route_add_t abi sys dest gw iface table_id ≡ some t
      → Behind abi t.nlmsg_len t.attrs × (t.nlmsg_len ≤ abi.msg_length + 60)
  unfolding ip_route_add_t
  ip_route_add_t-fits dest gw iface table_id t e = elim (Bool-cases (ltb 255 table_id)) [
    | inl large ↦
        fits (0 + 1 + 3)
          (add_route_attrs-Packed 1 dest gw iface (add_attr abi start rta_table table_id) t
            (add_attr-Packed abi 0 start rta_table table_id (request-Packed abi true _))
            (rw large at e))
          (omega arith)
    | inr small ↦
        fits (0 + 3)
          (add_route_attrs-Packed 0 dest gw iface start t (request-Packed abi true _)
            (rw small at e))
          (omega arith)
  ]
    where
      start : Request
      start = request abi true (if leb table_id 255 then table_id else table_unspec)

      fits :
          (n : ℕ)
          → Packed abi n t
          → n ≤ 4
          → Behind abi t.nlmsg_len t.attrs × (t.nlmsg_len ≤ abi.msg_length + 60)
      fits n p h = (p.behind, omega (arith, p.many, p.short))
