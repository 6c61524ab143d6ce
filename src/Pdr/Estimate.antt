-- ===== src/Pdr/Estimate.antt =====
-- The table of sequence numbers after a packet.
use routing_mesh.Prelude.{
  ◌==◌, ◌&&◌, ℕ, zero, suc, ◌+◌, ◌-◌, ◌%◌, ◌≤◌, ◌<◌, ◌≡◌, ◌≢◌, refl, sym, ap, fun_ext, ◌∙◌, subst,
  inl, inr, false, Option, none, some, arith, ltb, upd, Bool-cases, ℕ_discrete,
}
use routing_mesh.Prelude.Int.{pos}
use routing_mesh.Prelude.Float.{Float}
use routing_mesh.Matrix.{TdmaMatrix}
use routing_mesh.Matrix.Sound.{SameMesh, same_mesh, set_link_quality-SameMesh}
use routing_mesh.Pdr.{
  pdr_update, update_interval, Pdr, no_node, skipped, step, count_missed, finish, store,
  pdr_estimate,
}

-- entry i is larger than the new number, and neither it nor the next one is empty
pub OutOfOrder : (ℕ → ℕ) → ℕ → ℕ → Type 0
OutOfOrder t seq i = (t i ≢ 0) × (t ((i + 1) % 300) ≢ 0) × (seq < t i)

-- the loop over the entries from i on stops at an entry out of order, or there is none
pub data Counted (t : ℕ → ℕ) (seq i k : ℕ) (r : Option (ℕ × ℕ)) : Type 0 where
  reset : (j : ℕ) → i ≤ j → j < i + k → OutOfOrder t seq j → r ≡ none → Counted t seq i k r
  ordered :
      (a : ℕ × ℕ)
      → ((j : ℕ) → i ≤ j → j < i + k → ¬ OutOfOrder t seq j)
      → r ≡ some a
      → Counted t seq i k r

data Stepped (t : ℕ → ℕ) (seq i : ℕ) (r : Option (ℕ × ℕ)) : Type 0 where
  bad : OutOfOrder t seq i → r ≡ none → Stepped t seq i r
  good : (a : ℕ × ℕ) → ¬ OutOfOrder t seq i → r ≡ some a → Stepped t seq i r

step-Stepped : (t : ℕ → ℕ) (seq i : ℕ) (acc : ℕ × ℕ) → Stepped t seq i (step t seq i acc)
unfolding step OutOfOrder
step-Stepped t seq i acc = elim (Bool-cases (skipped t i)) [
  | inl empty ↦ rw (step, empty) (good acc (λ o. ground (arith, o.0, o.1, empty)) refl)
  | inr full ↦ elim (Bool-cases (ltb seq (t i))) [
    | inl larger ↦
        rw (step, full, larger)
          (bad (ground (arith, full), ground (arith, full), ground (arith, larger)) refl)
    | inr smaller ↦ rw (step, full, smaller) (good _ (λ o. ground (arith, o.2, smaller)) refl)
  ]
]

count_missed-Counted :
    (t : ℕ → ℕ) (seq k i : ℕ) (acc : ℕ × ℕ) → Counted t seq i k (count_missed t seq k i acc)
unfolding count_missed
count_missed-Counted t seq zero i acc = ordered acc (λ j a b. absurd (omega arith)) refl
count_missed-Counted t seq (suc k) i acc = elim (step-Stepped t seq i acc) [
  | bad o e ↦ rw (count_missed, e) (reset i (omega arith) (omega arith) o refl)
  | good a no_o e ↦ rw (count_missed, e) (later a no_o (count_missed-Counted t seq k (i + 1) a))
]
  where
    later :
        (a : ℕ × ℕ)
        → ¬ OutOfOrder t seq i
        → Counted t seq (i + 1) k (count_missed t seq k (i + 1) a)
        → Counted t seq i (suc k) (count_missed t seq k (i + 1) a)
    later a no_o (reset j low high o e) = reset j (omega arith) (omega arith) o e
    later a no_o (ordered b none_out e) =
        ordered b
          (λ j low high. elim (ℕ_discrete j i) [
            | yes same ↦ subst (λ z. ¬ OutOfOrder t seq z) (sym same) no_o
            | no differ ↦ none_out j (omega arith) (omega arith)
          ])
          e

module _ (F : Float) where
  -- the row of src with the new number in it
  abbrev pub written : Pdr F.T → ℕ → ℕ → ℕ → ℕ
  written p src seq = upd (p.seq_table src) (p.w_ptr src) seq

  -- what an estimate leaves: the row of src is emptied and the ratios stay if a number is out of order, and the row is
  -- the written one if none is; the ring's position moves on in both cases
  pub data Estimated (p : Pdr F.T) (src seq : ℕ) (q : Pdr F.T) : Type 0 where
    cleared :
        (j : ℕ)
        → j < 299
        → OutOfOrder (written p src seq) seq j
        → ((x : ℕ) → q.seq_table src x ≡ 0)
        → q.pdr_in ≡ p.pdr_in
        → q.w_ptr src ≡ (p.w_ptr src + 1) % 300
        → Estimated p src seq q
    kept :
        ((j : ℕ) → j < 299 → ¬ OutOfOrder (written p src seq) seq j)
        → ((x : ℕ) → q.seq_table src x ≡ written p src seq x)
        → q.w_ptr src ≡ (p.w_ptr src + 1) % 300
        → Estimated p src seq q

  finish-none :
      (s : Pdr F.T) (src seq x : ℕ)
      → let q = finish F s src seq none in
        (q.seq_table src x ≡ 0) × (q.pdr_in ≡ s.pdr_in) × (q.w_ptr ≡ s.w_ptr)
  unfolding finish
  finish-none s src seq x = (ground arith, refl, refl)

  finish-some :
      (s : Pdr F.T) (src seq : ℕ) (a : ℕ × ℕ)
      → let q = finish F s src seq (some a) in (q.seq_table ≡ s.seq_table) × (q.w_ptr ≡ s.w_ptr)
  unfolding finish
  finish-some s src seq (missed, low) =
      elim (Bool-cases (F.leb (F.of_int (pos (seq - low))) (F.lit 0 0))) [
        | inl no_range ↦ rw (finish, no_range) (refl, refl)
        | inr range ↦ rw (finish, range) (refl, refl)
      ]

  store-row : (p : Pdr F.T) (src seq : ℕ) → (store F p src seq).seq_table src ≡ written p src seq
  unfolding store
  store-row p src seq = fun_ext (λ x. ground arith)

  estimate-finish :
      (p : Pdr F.T) (src seq : ℕ)
      → no_node src ≡ false
      → pdr_estimate F p src seq
        ≡ finish F (store F p src seq) src seq (count_missed (written p src seq) seq 299 0 (0, seq))
  unfolding pdr_estimate
  estimate-finish p src seq h =
      rw (pdr_estimate, h)
        (ap (λ t. finish F (store F p src seq) src seq (count_missed t seq 299 0 (0, seq)))
          (store-row p src seq))

  store-w_ptr :
      (p : Pdr F.T) (src seq : ℕ) → (store F p src seq).w_ptr src ≡ (p.w_ptr src + 1) % 300
  unfolding store
  store-w_ptr p src seq = ground arith

  -- For a node from 1 to MAX_NODES, after `pdr_estimate` of a sequence number: the row of the node has been emptied and no
  -- ratio changed if one of the first 299 entries is out of order; otherwise the row has the number at the ring's position.
  pub pdr_estimate-Estimated :
      (p : Pdr F.T) (src seq : ℕ)
      → 1 ≤ src
      → src ≤ 20
      → Estimated p src seq (pdr_estimate F p src seq)
  unfolding store
  pdr_estimate-Estimated p src seq low high =
      subst (Estimated p src seq) (sym (estimate-finish p src seq (ground arith)))
        (by_count (count_missed-Counted (written p src seq) seq 299 0 (0, seq)))
    where
      by_count :
          {r : Option (ℕ × ℕ)}
          → Counted (written p src seq) seq 0 299 r
          → Estimated p src seq (finish F (store F p src seq) src seq r)
      by_count {r} (reset j a b o e) =
          let f = finish-none (store F p src seq) src seq in
          subst (λ z. Estimated p src seq (finish F (store F p src seq) src seq z)) (sym e)
            (cleared j (omega arith) o (λ x. (f x).0) ((f 0).1)
              (ap (λ (w : ℕ → ℕ). w src) ((f 0).2) ∙ store-w_ptr p src seq))
      by_count {r} (ordered a none_out e) =
          let f = finish-some (store F p src seq) src seq a in
          subst (λ z. Estimated p src seq (finish F (store F p src seq) src seq z)) (sym e)
            (kept (λ j h. none_out j (omega arith) (omega arith))
              (λ x.
                ap (λ (t : ℕ → ℕ → ℕ). t src x) (f.0)
                ∙ ap (λ (t : ℕ → ℕ). t x) (store-row p src seq))
              (ap (λ (w : ℕ → ℕ). w src) (f.1) ∙ store-w_ptr p src seq))

-- The update of a ratio changes at most a link quality in the matrix.
pub pdr_update-SameMesh :
    (F : Float) {D : Type 0} (p : Pdr F.T) (m : TdmaMatrix D) (src id : ℕ)
    → SameMesh m (pdr_update F (p, m) src id).1
unfolding pdr_update
pdr_update-SameMesh F p m src id =
    let counted = record p { pkt_count = upd p.pkt_count src ((p.pkt_count src + 1) % 65536) } in
    let q = pdr_estimate F counted src id in
    elim (Bool-cases (no_node src)) [
      | inl nobody ↦ rw (pdr_update, nobody) (same_mesh m)
      | inr somebody ↦
          elim (Bool-cases
            (q.pkt_count src % update_interval == 0 && F.leb (F.lit 0 0) (q.pdr_in src))) [
              | inl due ↦ rw (pdr_update, somebody, due) (set_link_quality-SameMesh m src _)
              | inr not_due ↦ rw (pdr_update, somebody, not_due) (same_mesh m)
            ]
    ]
