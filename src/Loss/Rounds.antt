-- ===== src/Loss/Rounds.antt =====
-- The loop over the neighbours in one round.
use routing_mesh.Prelude.{
  ℕ, ◌+◌, ◌≡◌, refl, sym, ◌∙◌, subst, inl, inr, Bool, true, ◌&&◌, not, arith, leb, ◌==◌,
  if◌then◌else◌, for_up_inv, Bool-cases, ℕ_discrete,
}
use routing_mesh.Matrix.{TdmaMatrix}
use routing_mesh.Matrix.Sound.{SameMesh, same_mesh, update_link_quality-SameMesh}
use routing_mesh.Loss.{Link, slide, weak, is_received, account, check_node, check_losses}

-- a neighbour's link after a round in which it was looked at
pub next_link : Link → Bool → Link
next_link l received =
    let w = slide l.rx_window received in record { rx_window = w; seen = true; degraded = weak w }

module _ (last_rx : ℕ → ℕ) (cur_round me : ℕ) where
  -- whether the loop looks at node x
  pub looked_at : ℕ → Bool
  looked_at x = not (x == me) && not (last_rx x == 0)

  account-links :
      {D : Type 0} (id : ℕ) (received : Bool) (t : (ℕ → Link) × TdmaMatrix D) (x : ℕ)
      → (account id received t).0 x ≡ (if x == id then next_link (t.0 id) received else t.0 x)
  unfolding account next_link
  account-links id received t x = elim (Bool-cases (weak (slide (t.0 id).rx_window received))) [
    | inl low ↦ rw (account, low) refl
    | inr high ↦ rw (account, high) refl
  ]

  check_node-links :
      {D : Type 0} (s : ℕ) (t : (ℕ → Link) × TdmaMatrix D) (x : ℕ)
      → (check_node last_rx cur_round me s t).0 x ≡ (
          if x == s + 1 && looked_at (s + 1)
          then next_link (t.0 (s + 1)) (is_received (last_rx (s + 1)) cur_round)
          else t.0 x)
  unfolding check_node looked_at
  check_node-links s t x = elim (Bool-cases (s + 1 == me)) [
    | inl self ↦ rw (check_node, self) (ground (arith, self))
    | inr other ↦ elim (Bool-cases (last_rx (s + 1) == 0)) [
      | inl never ↦ rw (check_node, other, never) (ground (arith, other, never))
      | inr heard ↦
          rw (check_node, other, heard)
            (account-links (s + 1) (is_received (last_rx (s + 1)) cur_round) t x
              ∙ ground (arith, other, heard))
    ]
  ]

  after : (ℕ → Link) → ℕ → ℕ → Link
  after links k x =
      if leb 1 x && leb x k && looked_at x
      then next_link (links x) (is_received (last_rx x) cur_round)
      else links x

  step-links :
      {D : Type 0} (links : ℕ → Link) (k : ℕ) (t : (ℕ → Link) × TdmaMatrix D)
      → ((x : ℕ) → t.0 x ≡ after links k x)
      → (x : ℕ) → (check_node last_rx cur_round me k t).0 x ≡ after links (k + 1) x
  unfolding after
  step-links links k t ih x = elim (ℕ_discrete x (k + 1)) [
    | yes same ↦
        subst (λ z. (check_node last_rx cur_round me k t).0 z ≡ after links (k + 1) z) (sym same)
          (ground (arith, check_node-links k t (k + 1), ih (k + 1)))
    | no differ ↦ ground (arith, check_node-links k t x, ih x)
  ]

  -- A round slides the window of every node from 1 to num_nodes but this one that has been heard before, and sets its
  -- flag by the new window; every other link stays as it was.
  pub check_losses-links :
      {D : Type 0} (num_nodes : ℕ) (links : ℕ → Link) (m : TdmaMatrix D) (x : ℕ)
      → (check_losses num_nodes last_rx cur_round me (links, m)).0 x ≡ (
          if leb 1 x && leb x num_nodes && looked_at x
          then next_link (links x) (is_received (last_rx x) cur_round)
          else links x)
  unfolding check_losses after
  check_losses-links {D = D} num_nodes links m x =
      for_up_inv (λ k (t : (ℕ → Link) × TdmaMatrix D). (x : ℕ) → t.0 x ≡ after links k x)
        (check_node last_rx cur_round me) num_nodes 0 num_nodes (links, m) (omega arith)
        (λ k t _ _ ih. step-links links k t ih) (λ y. ground arith) x

-- A look at a neighbour changes at most a link quality in the matrix.
pub check_node-SameMesh :
    {D : Type 0} (last_rx : ℕ → ℕ) (cur_round me k : ℕ) (links : ℕ → Link) (m : TdmaMatrix D)
    → SameMesh m (check_node last_rx cur_round me k (links, m)).1
unfolding check_node account
check_node-SameMesh last_rx cur_round me k links m =
    let received = is_received (last_rx (k + 1)) cur_round in
    elim (Bool-cases (k + 1 == me)) [
      | inl self ↦ rw (check_node, self) (same_mesh m)
      | inr other ↦ elim (Bool-cases (last_rx (k + 1) == 0)) [
        | inl never ↦ rw (check_node, other, never) (same_mesh m)
        | inr heard ↦ elim (Bool-cases (weak (slide (links (k + 1)).rx_window received))) [
          | inl low ↦
              rw (check_node, other, heard, account, low)
                (update_link_quality-SameMesh m (k + 1) true)
          | inr high ↦ rw (check_node, other, heard, account, high) (same_mesh m)
        ]
      ]
    ]
