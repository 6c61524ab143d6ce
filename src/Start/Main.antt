-- ===== src/Start/Main.antt =====
-- `main`: when the node runs.
use routing_mesh.Prelude.{
  ℕ, ◌%◌, ◌^◌, ◌≡◌, ◌↔◌, refl, sym, ap, ◌∙◌, inl, inr, Bool, true, false, not, Option, none, some,
  List, arith, ◌==◌, if◌then◌else◌, Bool-cases,
}
use routing_mesh.Prelude.Int.{ℤ, pos_part, ltb_ℤ}
use routing_mesh.Prelude.Float.{Float}
use routing_mesh.Sync.{Sync}
use routing_mesh.Start.{Boot, Started, with_socket, bound, node_init, after_init, main, outside}
use routing_mesh.Start.Accepted.{
  left_open, node_init-open, is_running, can_start, Allowed, Allowed-checks, checks_pass,
}

running-if :
    {D F : Float} (b : Bool) (x y : Option (Started D F) × List ℕ)
    → is_running ((after_init (if b then x else y)).0)
      ≡ (if b then is_running ((after_init x).0) else is_running ((after_init y).0))
running-if true x y = refl
running-if false x y = refl

-- an exit that does not run the node, for arguments that are not allowed
no_run :
    {A B C : Type 0} (g : A → true ≡ false) → C → ((false ≡ true) ↔ (A × B)) × (false ≡ false → C)
no_run g c = ((λ e. absurd (ground (arith, e)), λ h. absurd (ground (arith, g h.0))), λ e. c)

after_init-closed :
    {D F : Float} (r : Option (Started D F) × List ℕ) (l : List ℕ)
    → r.1 ≡ left_open r.0 l
    → is_running ((after_init r).0) ≡ false
    → (after_init r).1 ≡ l
unfolding after_init is_running left_open
after_init-closed (none, l') l h e = h
after_init-closed (some n, l') l h e = absurd (ground (arith, e))

module _ (D F : Float) (s0 : Sync F.T) (now_us : ℕ) (now : D.T) (boot : Boot) where
  socket_runs :
      (i n : ℕ) (o : Option ℕ) (l : List ℕ)
      → (if boot.memory
          then is_running ((after_init (with_socket D F s0 now_us now boot i n o l)).0)
          else false)
        ≡ can_start boot o
  unfolding with_socket bound after_init is_running can_start
  socket_runs i n none l = ground arith
  socket_runs i n (some fd) l =
      ap (λ b. if boot.memory then b else false) (running-if boot.bind_udp _ _) ∙ ground arith

  node_init-runs :
      (i n : ℕ) (l : List ℕ)
      → is_running ((after_init (node_init D F s0 now_us now boot i n l)).0)
        ≡ can_start boot boot.udp_socket
  unfolding node_init after_init is_running
  node_init-runs i n l = running-if boot.memory _ _ ∙ socket_runs i n boot.udp_socket l

  -- The node runs exactly if there are two arguments, the numbers i and n with 1 ≤ i ≤ n and 2 ≤ n ≤ 20, and node_init
  -- gets its memory, a UDP socket and its port. If it does not run, no descriptor is left open.
  pub main_runs :
      (argc : ℕ) (a b : ℤ) (l : List ℕ)
      → let r = main D F s0 now_us now boot argc a b l in
        ((is_running r.0 ≡ true) ↔ (Allowed argc a b × (can_start boot boot.udp_socket ≡ true)))
        × (is_running r.0 ≡ false → r.1 ≡ l)
  unfolding main is_running
  main_runs argc a b l = elim (Bool-cases (not (argc == 3))) [
    | inl p ↦ rw (main, p) (no_run (λ g. sym p ∙ (checks_pass argc a b g).0) refl)
    | inr p ↦ elim (Bool-cases (outside 1 a)) [
      | inl q ↦ rw (main, p, q) (no_run (λ g. sym q ∙ (checks_pass argc a b g).1) refl)
      | inr q ↦ elim (Bool-cases (outside 2 b)) [
        | inl r ↦ rw (main, p, q, r) (no_run (λ g. sym r ∙ (checks_pass argc a b g).2) refl)
        | inr r ↦ elim (Bool-cases (ltb_ℤ b a)) [
          | inl s ↦ rw (main, p, q, r, s) (no_run (λ g. sym s ∙ (checks_pass argc a b g).3) refl)
          | inr s ↦
              let i = pos_part a % 2 ^ 8 in
              let n = pos_part b % 2 ^ 8 in
              let runs' = node_init-runs i n l in
              rw (main, p, q, r, s)
                (
                  (λ e. (Allowed-checks argc a b p q r s, sym runs' ∙ e), λ g. runs' ∙ g.1),
                  after_init-closed (node_init D F s0 now_us now boot i n l) l
                      (node_init-open D F s0 now_us now boot i n l),
                )
        ]
      ]
    ]
  ]
