-- ===== src/Start/Ran.antt =====
-- The node that `main` runs.
use routing_mesh.Prelude.{
  ℕ, ◌%◌, ◌^◌, ◌≤◌, ◌≡◌, refl, ap, ◌∙◌, subst, inl, inr, not, Option, none, some, List, arith, ◌==◌,
  Bool-cases,
}
use routing_mesh.Prelude.Int.{ℤ, pos_part, ltb_ℤ}
use routing_mesh.Prelude.Float.{Float}
use routing_mesh.Sync.{Sync}
use routing_mesh.Start.{
  routing_manager_create, Boot, Started, Exit, usage, bad_node_id, bad_num_nodes, id_above,
  not_started, runs, with_socket, bound, started, node_init, after_init, main, outside,
}
use routing_mesh.Start.Accepted.{either_way, Allowed, Allowed-checks}

-- what holds of the node, if it runs
RanEach : {D F : Float} → (Started D F → Type 0) → Exit D F → Type 0
RanEach P usage = Unit
RanEach P bad_node_id = Unit
RanEach P bad_num_nodes = Unit
RanEach P id_above = Unit
RanEach P not_started = Unit
RanEach P (runs n) = P n

module _ (D F : Float) (s0 : Sync F.T) (now_us : ℕ) (now : D.T) (boot : Boot) where
  -- node i of n, with its sockets and its device
  pub record IsNode (st : Started D F) : Type 0 where
    pub id : ℕ
    pub num : ℕ
    pub fd : ℕ
    pub server : Option ℕ
    pub tun : Option ℕ
    pub id_low : 1 ≤ id
    pub id_high : id ≤ num
    pub num_low : 2 ≤ num
    pub num_high : num ≤ 20
    pub fields : st ≡ started D F s0 now_us now id num fd server tun

  with_socket-IsNode :
      (i n : ℕ) (o : Option ℕ) (l : List ℕ)
      → 1 ≤ i
      → i ≤ n
      → 2 ≤ n
      → n ≤ 20
      → RanEach IsNode (after_init (with_socket D F s0 now_us now boot i n o l)).0
  unfolding with_socket bound after_init RanEach
  with_socket-IsNode i n none l a b c d = tt
  with_socket-IsNode i n (some fd) l a b c d =
      either_way (λ (r : Option (Started D F) × List ℕ). RanEach IsNode (after_init r).0)
        boot.bind_udp _ _
        (record {
          id = i;
          num = n;
          fd = fd;
          server = _;
          tun = _;
          id_low = a;
          id_high = b;
          num_low = c;
          num_high = d;
          fields = refl;
        })
        tt

  main-RanEach :
      (argc : ℕ) (a b : ℤ) (l : List ℕ) → RanEach IsNode (main D F s0 now_us now boot argc a b l).0
  unfolding main RanEach node_init after_init
  main-RanEach argc a b l = elim (Bool-cases (not (argc == 3))) [
    | inl p ↦ rw (main, p) tt
    | inr p ↦ elim (Bool-cases (outside 1 a)) [
      | inl q ↦ rw (main, p, q) tt
      | inr q ↦ elim (Bool-cases (outside 2 b)) [
        | inl r ↦ rw (main, p, q, r) tt
        | inr r ↦ elim (Bool-cases (ltb_ℤ b a)) [
          | inl s ↦ rw (main, p, q, r, s) tt
          | inr s ↦ rw (main, p, q, r, s) (allowed (Allowed-checks argc a b p q r s))
        ]
      ]
    ]
  ]
    where
      allowed :
          Allowed argc a b
          → RanEach IsNode
              (after_init
                (node_init D F s0 now_us now boot (pos_part a % 2 ^ 8) (pos_part b % 2 ^ 8) l)).0
      allowed v =
          let i : pos_part a % 2 ^ 8 ≡ v.id =
            ap (λ z. pos_part z % 2 ^ 8) v.first ∙ omega (arith, v.id_high, v.num_high) in
          let n : pos_part b % 2 ^ 8 ≡ v.num =
            ap (λ z. pos_part z % 2 ^ 8) v.second ∙ omega (arith, v.num_high) in
          rw (i, n)
            (either_way (λ (r : Option (Started D F) × List ℕ). RanEach IsNode (after_init r).0)
              boot.memory _ _
              (with_socket-IsNode v.id v.num boot.udp_socket l v.id_low v.id_high v.num_low
                v.num_high)
              tt)

  -- whatever `main` runs
  pub main-IsNode :
      (argc : ℕ) (a b : ℤ) (l : List ℕ) (st : Started D F)
      → (main D F s0 now_us now boot argc a b l).0 ≡ runs st
      → IsNode st
  unfolding RanEach
  main-IsNode argc a b l st e = subst (RanEach IsNode) e (main-RanEach argc a b l)

pub routing_manager_create-my_node_id :
    {D : Type 0} (z : D) (i n : ℕ) → (routing_manager_create z i n).my_node_id ≡ i
unfolding routing_manager_create
routing_manager_create-my_node_id z i n = refl
