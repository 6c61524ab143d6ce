-- ===== src/Matrix/Dead.antt =====
-- `removeDeadLinks`: the nodes that have not been heard for MAX_AGE leave the matrix.
pub mod Sound
use routing_mesh.Prelude.{
  ℕ, zero, suc, ◌+◌, ◌-◌, ◌≤◌, ◌<◌, ◌≡◌, refl, sym, ap, ◌∙◌, inl, inr, List, [], ◌∷◌, ◌++◌, Option,
  none, some, Bool, true, false, ◌||◌, not, arith, ltb, ◌==◌, if◌then◌else◌, upd2, slice, slice_ext,
  slice-snoc_zero, slice-step, Bool-cases, ltb→lt, length, length-slice,
}
use mathlib.Core.List.{append_assoc, append-nil}
use routing_mesh.Prelude.Float.{Float}
use routing_mesh.Matrix.{TdmaMatrix, search_id, remove, remove_id_list, remove_id_matrix}
use routing_mesh.Matrix.Remove.{skip, remove_lem}

-- the writes to the entry [my_idx][i] before the removal
pub penalise_at : {D : Type 0} → TdmaMatrix D → ℕ → Option ℕ → TdmaMatrix D
penalise_at m i none = m
penalise_at m i (some k) =
    let q = m.quality k i in
    record m {
      quality = upd2 m.quality k i (if ltb 20 q then q - 20 else 0);
      matrix = upd2 m.matrix k i 0;
    }

pub penalise : {D : Type 0} → TdmaMatrix D → ℕ → TdmaMatrix D
unfolding penalise_at
penalise m i = penalise_at m i (search_id m m.my_id)

-- the lists of identifiers and creation times, as pairs
abbrev pub entry : {D : Type 0} → TdmaMatrix D → ℕ → ℕ × D
entry m i = (m.ids i, m.creation i)

abbrev pub entries : {D : Type 0} → TdmaMatrix D → List (ℕ × D)
entries m = slice (entry m) 0 m.active

-- an expired node: its link is penalised, then it goes
pub dropped : {D : Type 0} → TdmaMatrix D → ℕ → TdmaMatrix D
dropped m i = remove (penalise m i) i

module _ (F : Float) (now : F.T) where
  open F use {T, sub, leb, lit}

  -- age >= MAX_AGE
  pub expired : T → Bool
  expired creation = leb (lit 20 1) (sub now creation)

  -- the loop from index i: it goes on to i + 1, or after a removal (i--, i++) to i again
  pub remove_dead_from : ℕ → ℕ → TdmaMatrix T → TdmaMatrix T
  remove_dead_from zero i m = m
  remove_dead_from (suc fuel) i m =
      let next = remove_dead_from fuel (i + 1) m in
      let removed = remove_dead_from fuel i (dropped m i) in
      if ltb i m.active
      then (if m.ids i == m.my_id then next else if expired (m.creation i) then removed else next)
      else m

  -- Each round lowers `active - i` by one, so `active` rounds are enough.
  pub remove_dead_links : TdmaMatrix T → TdmaMatrix T
  unfolding remove_dead_from
  remove_dead_links m = remove_dead_from m.active 0 m

  -- the entries that stay: this node's own, and those not expired
  pub live : ℕ → List (ℕ × T) → List (ℕ × T)
  live me [] = []
  live me ((id, creation) ∷ es) =
      if id == me || not (expired creation) then (id, creation) ∷ live me es else live me es

  penalise-entry :
      (m : TdmaMatrix T) (i : ℕ)
      → (entry (penalise m i) ≡ entry m)
        × ((penalise m i).active ≡ m.active)
        × ((penalise m i).my_id ≡ m.my_id)
  unfolding penalise
  penalise-entry m i = from (search_id m m.my_id)
    where
      from :
          (o : Option ℕ)
          → (entry (penalise_at m i o) ≡ entry m)
            × ((penalise_at m i o).active ≡ m.active)
            × ((penalise_at m i o).my_id ≡ m.my_id)
      from none = (refl, refl, refl)
      from (some k) = (refl, refl, refl)

  dropped-entry :
      (m : TdmaMatrix T) (i k : ℕ)
      → i < m.active
      → k < m.active - 1
      → entry (dropped m i) k ≡ entry m (skip i k)
  unfolding dropped
  dropped-entry m i k h hk =
      let (same, n, me) = penalise-entry m i in
      let r = remove_lem (penalise m i) i k k (rw n h) (rw n hk) (rw n hk) in
      ground (arith, r, ap (λ (f : ℕ → ℕ × T). f (skip i k)) same)

  dropped-active :
      (m : TdmaMatrix T) (i : ℕ)
      → ((dropped m i).active ≡ m.active - 1) × ((dropped m i).my_id ≡ m.my_id)
  unfolding dropped remove_id_list remove_id_matrix
  dropped-active m i = ground (arith, penalise-entry m i)

  -- what the loop from index i leaves of the entries
  abbrev Remains : ℕ → TdmaMatrix T → TdmaMatrix T → Type 0
  Remains i m t = entries t ≡ slice (entry m) 0 i ++ live m.my_id (slice (entry m) i (m.active - i))

  dropped-before :
      (m : TdmaMatrix T) (i : ℕ)
      → i < m.active
      → slice (entry (dropped m i)) 0 i ≡ slice (entry m) 0 i
  dropped-before m i h = slice_ext (entry (dropped m i)) (entry m) 0 0 i (λ k lt.
      let z : 0 + k ≡ k = omega arith in
      rw z (dropped-entry m i k h (omega arith) ∙ ap (entry m) (ground arith)))

  dropped-behind :
      (m : TdmaMatrix T) (i : ℕ)
      → i < m.active
      → slice (entry (dropped m i)) i (m.active - (i + 1))
        ≡ slice (entry m) (i + 1) (m.active - (i + 1))
  dropped-behind m i h =
      slice_ext (entry (dropped m i)) (entry m) i (i + 1) (m.active - (i + 1))
        (λ k lt. dropped-entry m i (i + k) h (omega arith) ∙ ap (entry m) (ground arith))

  live-kept :
      (me : ℕ) (e : ℕ × T) (es : List (ℕ × T))
      → ((e.0 == me) || not (expired e.1)) ≡ true
      → live me (e ∷ es) ≡ e ∷ live me es
  unfolding live
  live-kept me e es h = rw h

  live-gone :
      (me : ℕ) (e : ℕ × T) (es : List (ℕ × T))
      → ((e.0 == me) || not (expired e.1)) ≡ false
      → live me (e ∷ es) ≡ live me es
  unfolding live
  live-gone me e es h = rw h

  -- the entry at i stays
  Remains-kept :
      (i : ℕ) (m t : TdmaMatrix T)
      → i < m.active
      → ((m.ids i == m.my_id) || not (expired (m.creation i))) ≡ true
      → Remains (i + 1) m t
      → Remains i m t
  Remains-kept i m t h keep r =
      let rest = slice (entry m) (i + 1) (m.active - (i + 1)) in
      r
      ∙ ap (λ l. l ++ live m.my_id rest) (slice-snoc_zero (entry m) i)
      ∙ append_assoc (slice (entry m) 0 i) (entry m i ∷ []) (live m.my_id rest)
      ∙ ap (λ l. slice (entry m) 0 i ++ l)
          (sym (rw (slice-step (entry m) i m.active h) (live-kept m.my_id (entry m i) rest keep)))

  -- the entry at i goes
  Remains-dropped :
      (i : ℕ) (m t : TdmaMatrix T)
      → i < m.active
      → ((m.ids i == m.my_id) || not (expired (m.creation i))) ≡ false
      → Remains i (dropped m i) t
      → Remains i m t
  Remains-dropped i m t h gone r =
      let n : (dropped m i).active - i ≡ m.active - (i + 1) =
        omega (arith, (dropped-active m i).0) in
      r
      ∙ ap
          (λ l.
            l
            ++ live (dropped m i).my_id (slice (entry (dropped m i)) i ((dropped m i).active - i)))
          (dropped-before m i h)
      ∙ ap (λ l. slice (entry m) 0 i ++ l)
          (rw ((dropped-active m i).1, n, dropped-behind m i h)
            (sym (rw (slice-step (entry m) i m.active h) (live-gone m.my_id (entry m i) _ gone))))

  Remains-end : (i : ℕ) (m : TdmaMatrix T) → i ≤ m.active → (i < m.active → ⊥) → Remains i m m
  unfolding live
  Remains-end i m h last =
      let e : m.active ≡ i = ground arith in
      let z : m.active - i ≡ 0 = omega arith in rw z (rw append-nil (ap (slice (entry m) 0) e))

  remove_dead_from-Remains :
      (fuel i : ℕ) (m : TdmaMatrix T)
      → i ≤ m.active
      → m.active - i ≤ fuel
      → Remains i m (remove_dead_from fuel i m)
  unfolding remove_dead_from
  remove_dead_from-Remains zero i m h f = Remains-end i m h (λ lt. omega arith)
  remove_dead_from-Remains (suc fuel) i m h f = elim (Bool-cases (ltb i m.active)) [
    | inr last ↦ rw last (Remains-end i m h (λ lt. ground arith))
    | inl more ↦ rw more (elim (Bool-cases (m.ids i == m.my_id)) [
      | inl mine ↦ rw mine (
          Remains-kept i m (remove_dead_from fuel (i + 1) m) (ground arith) (ground arith)
            (remove_dead_from-Remains fuel (i + 1) m (ground arith) (ground arith)))
      | inr other ↦ rw other (elim (Bool-cases (expired (m.creation i))) [
        | inl old ↦ rw old (
            Remains-dropped i m (remove_dead_from fuel i (dropped m i)) (ground arith)
              (ground arith)
              (remove_dead_from-Remains fuel i (dropped m i)
                (omega (arith, dropped-active m i, ltb→lt i m.active more))
                (omega (arith, dropped-active m i, ltb→lt i m.active more))))
        | inr young ↦ rw young (
            Remains-kept i m (remove_dead_from fuel (i + 1) m) (ground arith) (ground arith)
              (remove_dead_from-Remains fuel (i + 1) m (ground arith) (ground arith)))
      ])
    ])
  ]

  -- `removeDeadLinks` ends, and leaves exactly this node and the nodes whose entry is younger than
  -- MAX_AGE, in their old order and with their old creation times.
  pub remove_dead_links-live :
      (m : TdmaMatrix T) → entries (remove_dead_links m) ≡ live m.my_id (entries m)
  unfolding remove_dead_links
  remove_dead_links-live m =
      let z : m.active - 0 ≡ m.active = omega arith in
      rw z at (remove_dead_from-Remains m.active 0 m (omega arith) (omega arith))

  length-live : (me : ℕ) (es : List (ℕ × T)) → length (live me es) ≤ length es
  unfolding live
  length-live me [] = omega arith
  length-live me ((id, creation) ∷ es) = ground (arith, length-live me es)

  pub remove_dead_links-active : (m : TdmaMatrix T) → (remove_dead_links m).active ≤ m.active
  remove_dead_links-active m = omega (
    arith,
    ap length (remove_dead_links-live m),
    length-live m.my_id (entries m),
    length-slice (entry m) 0 m.active,
    length-slice (entry (remove_dead_links m)) 0 (remove_dead_links m).active,
  )
