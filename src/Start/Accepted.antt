-- ===== src/Start/Accepted.antt =====
-- Which arguments start a node, and what a start leaves behind.
use routing_mesh.Prelude.{
  ℕ, zero, suc, ◌+◌, ◌-◌, ◌*◌, ◌/◌, ◌%◌, ◌^◌, ◌<◌, ◌≤◌, ◌≡◌, ◌↔◌, refl, ap, subst, ◌∙◌, Bool, true,
  false, not, ◌&&◌, Option, none, some, List, ◌∷◌, arith, ◌==◌, if◌then◌else◌,
}
use routing_mesh.Prelude.Int.{ℤ, pos, negsuc, ltb_ℤ}
use routing_mesh.Prelude.Float.{Float}
use native.Mathlib.Nat.{mul-div_cancel_left}
use routing_mesh.Sync.{Sync, within, init}
use routing_mesh.Sync.Slot.{IsValid, init-IsValid, slots_partition}
use routing_mesh.Start.{
  Boot, TunCalls, Started, Exit, usage, bad_node_id, bad_num_nodes, id_above, not_started, runs,
  close_fd, or_close, configure, tun_from, tun_open, listen_on, bound, with_socket, started,
  node_init, outside,
}

pub either_way {ℓ κ} :
    {A : Type ℓ} (P : A → Type κ) (b : Bool) (x y : A) → P x → P y → P (if b then x else y)
either_way P true x y h g = h
either_way P false x y h g = g

close_fd-first : (fd : ℕ) (l : List ℕ) → close_fd fd (fd ∷ l) ≡ l
unfolding close_fd
close_fd-first fd l = ground arith

-- the descriptor in front, if there is one
pub with_fd : Option ℕ → List ℕ → List ℕ
with_fd none l = l
with_fd (some fd) l = fd ∷ l

or_close-open :
    (ok : Bool) (sock fd : ℕ) (l : List ℕ) (later : Option ℕ × List ℕ)
    → later.1 ≡ with_fd later.0 l
    → let r = or_close ok sock fd (sock ∷ fd ∷ l) later in r.1 ≡ with_fd r.0 l
unfolding or_close with_fd
or_close-open true sock fd l later h = h
or_close-open false sock fd l later h =
    ap (close_fd fd) (close_fd-first sock (fd ∷ l)) ∙ close_fd-first fd l

configure-open :
    (c : TunCalls) (fd : ℕ) (o : Option ℕ) (l : List ℕ)
    → let r = configure c fd o (fd ∷ l) in r.1 ≡ with_fd r.0 l
unfolding configure with_fd
configure-open c fd none l = close_fd-first fd l
configure-open c fd (some sock) l = or_close-open c.set_addr sock fd l _ (
    or_close-open c.set_netmask sock fd l _ (
      or_close-open c.get_flags sock fd l _
        (or_close-open c.set_flags sock fd l _ (close_fd-first sock (fd ∷ l)))))

tun_from-open :
    (c : TunCalls) (o : Option ℕ) (l : List ℕ) → let r = tun_from c o l in r.1 ≡ with_fd r.0 l
unfolding tun_from with_fd
tun_from-open c none l = refl
tun_from-open c (some fd) l =
    either_way (λ (r : Option ℕ × List ℕ). r.1 ≡ with_fd r.0 l) c.set_iff _ _
      (configure-open c fd c.socket l) (close_fd-first fd l)

listen_on-open :
    (b : Bool) (o : Option ℕ) (l : List ℕ) → let r = listen_on b o l in r.1 ≡ with_fd r.0 l
unfolding listen_on with_fd
listen_on-open b none l = refl
listen_on-open true (some fd) l = refl
listen_on-open false (some fd) l = close_fd-first fd l

-- what a start leaves open: nothing, or the sockets and the device of the node
unfoldable pub left_open : {D F : Float} → Option (Started D F) → List ℕ → List ℕ
left_open none l = l
left_open (some n) l = with_fd n.tun_fd (with_fd n.tcp_server_fd (n.sockfd ∷ l))

module _ (D F : Float) (s0 : Sync F.T) (now_us : ℕ) (now : D.T) (boot : Boot) where
  with_socket-open :
      (i n : ℕ) (o : Option ℕ) (l : List ℕ)
      → let r = with_socket D F s0 now_us now boot i n o l in r.1 ≡ left_open r.0 l
  unfolding with_socket bound left_open tun_open started
  with_socket-open i n none l = refl
  with_socket-open i n (some fd) l =
      either_way (λ (r : Option (Started D F) × List ℕ). r.1 ≡ left_open r.0 l) boot.bind_udp _ _
        (tun_from-open boot.tun boot.tun.open_tun _
          ∙ ap (with_fd _) (listen_on-open boot.bind_tcp boot.tcp_socket (fd ∷ l)))
        (close_fd-first fd l)

  -- Whichever calls of node_init and tun_open fail: if no node comes of it, every descriptor that was opened is closed
  -- again; otherwise the open ones are the node's UDP socket, its listening socket and its TUN device, as far as it has them.
  pub node_init-open :
      (i n : ℕ) (l : List ℕ)
      → let r = node_init D F s0 now_us now boot i n l in r.1 ≡ left_open r.0 l
  unfolding node_init left_open
  node_init-open i n l =
      either_way (λ (r : Option (Started D F) × List ℕ). r.1 ≡ left_open r.0 l) boot.memory _ _
        (with_socket-open i n boot.udp_socket l) refl

-- the slot of a node
pub SlotOf : {D F : Float} → ℕ → ℕ → Started D F → Type 0
SlotOf i n st =
    IsValid st.sync
    × (st.sync.begin_ms ≡ 50 * (i - 1))
    × ((t : ℕ) → t < 50 * n → (within st.sync t ≡ true) ↔ (t / 50 + 1 ≡ i))

-- what holds of the node, if there is one
Each : {D F : Float} → (Started D F → Type 0) → Option (Started D F) → Type 0
Each P none = Unit
Each P (some st) = P st

Each-some :
    {D F : Float} (P : Started D F → Type 0) (st : Started D F) (o : Option (Started D F))
    → o ≡ some st
    → Each P o
    → P st
unfolding Each
Each-some P st o e h = subst (Each P) e h

pub init_slot :
    {T : Type 0} (s0 : Sync T) (i n now : ℕ)
    → 1 ≤ i
    → i ≤ n
    → 2 ≤ n
    → n ≤ 20
    → let s = init s0 i n (n * 50000 / 1000 % 2 ^ 16) now in
      IsValid s
      × (s.begin_ms ≡ 50 * (i - 1))
      × ((t : ℕ) → t < 50 * n → (within s t ≡ true) ↔ (t / 50 + 1 ≡ i))
init_slot s0 zero n now a b c d = absurd (omega arith)
init_slot s0 (suc k) n now a b c d =
    let period : n * 50000 / 1000 % 2 ^ 16 ≡ n * 50 = omega arith in
    let (valid, begin) =
      init-IsValid s0 k n (n * 50) now c (omega arith) (omega arith) (omega arith) in
    let width : n * 50 / n ≡ 50 = mul-div_cancel_left 50 (omega arith) in
    rw period (
      valid,
      begin ∙ ap (λ w. w * k) width ∙ omega arith,
      λ t lt.
          let p =
            slots_partition s0 k n 50 t now c (omega arith) (omega arith) (omega arith)
              (omega (arith, lt)) in
          (λ e. omega (arith, p.0 e), λ e. p.1 (omega (arith, e))),
    )

module _ (D F : Float) (s0 : Sync F.T) (now_us : ℕ) (now : D.T) (boot : Boot) where
  with_socket-Each :
      (P : Started D F → Type 0) (i n : ℕ) (o : Option ℕ) (l : List ℕ)
      → ((fd : ℕ) (server tun : Option ℕ) → P (started D F s0 now_us now i n fd server tun))
      → Each P ((with_socket D F s0 now_us now boot i n o l).0)
  unfolding with_socket bound Each
  with_socket-Each P i n none l h = tt
  with_socket-Each P i n (some fd) l h =
      either_way (λ (r : Option (Started D F) × List ℕ). Each P r.0) boot.bind_udp _ _ (h fd _ _) tt

  -- The node that starts with identifier i of n, for 1 ≤ i ≤ n and 2 ≤ n ≤ 20, whatever the kernel answers: its slot is
  -- valid and begins at 50 * (i - 1) ms, and a millisecond t of the frame of 50 * n ms is in it exactly if t / 50 + 1 is i.
  pub node_init-slot :
      (i n : ℕ) (l : List ℕ) (st : Started D F)
      → 1 ≤ i
      → i ≤ n
      → 2 ≤ n
      → n ≤ 20
      → (node_init D F s0 now_us now boot i n l).0 ≡ some st
      → IsValid st.sync
        × (st.sync.begin_ms ≡ 50 * (i - 1))
        × ((t : ℕ) → t < 50 * n → (within st.sync t ≡ true) ↔ (t / 50 + 1 ≡ i))
  unfolding SlotOf node_init Each started
  node_init-slot i n l st a b c d e = Each-some (SlotOf i n) st _ e (
      either_way (λ (r : Option (Started D F) × List ℕ). Each (SlotOf i n) r.0) boot.memory _ _
        (with_socket-Each (SlotOf i n) i n boot.udp_socket l
          (λ fd server tun. init_slot s0 i n now_us a b c d))
        tt)

-- whether the node runs
unfoldable pub is_running : {D F : Float} → Exit D F → Bool
is_running usage = false
is_running bad_node_id = false
is_running bad_num_nodes = false
is_running id_above = false
is_running not_started = false
is_running (runs n) = true

-- whether `node_init` gets its memory, its UDP socket and its port
unfoldable pub can_start : Boot → Option ℕ → Bool
can_start boot none = false
can_start boot (some fd) = boot.memory && boot.bind_udp

-- arguments that the documentation allows
pub record Allowed (argc : ℕ) (a b : ℤ) : Type 0 where
  pub two_arguments : argc ≡ 3
  pub id : ℕ
  pub num : ℕ
  pub first : a ≡ pos id
  pub second : b ≡ pos num
  pub id_low : 1 ≤ id
  pub id_high : id ≤ num
  pub num_low : 2 ≤ num
  pub num_high : num ≤ 20

pub Allowed-checks :
    (argc : ℕ) (a b : ℤ)
    → (not (argc == 3) ≡ false)
    → (outside 1 a ≡ false)
    → (outside 2 b ≡ false)
    → (ltb_ℤ b a ≡ false)
    → Allowed argc a b
Allowed-checks argc (pos i) (pos n) p q r s = record {
  two_arguments = ground (arith, p);
  id = i;
  num = n;
  first = refl;
  second = refl;
  id_low = ground (arith, q);
  id_high = ground (arith, s);
  num_low = ground (arith, r);
  num_high = ground (arith, r);
}
Allowed-checks argc (negsuc i) b p q r s = absurd (ground (arith, q))
Allowed-checks argc (pos i) (negsuc n) p q r s = absurd (ground (arith, r))

pub checks_pass :
    (argc : ℕ) (a b : ℤ)
    → Allowed argc a b
    → (not (argc == 3) ≡ false)
      × (outside 1 a ≡ false)
      × (outside 2 b ≡ false)
      × (ltb_ℤ b a ≡ false)
checks_pass argc a b v =
    rw (v.first, v.second)
      (
        ground (arith, v.two_arguments),
        ground (arith, v.id_low, v.id_high, v.num_high),
        ground (arith, v.num_low, v.num_high),
        ground (arith, v.id_high),
      )
