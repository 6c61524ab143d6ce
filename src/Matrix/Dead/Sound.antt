-- ===== src/Matrix/Dead/Sound.antt =====
-- `removeDeadLinks` keeps the matrix sound.
use routing_mesh.Prelude.{
  ℕ, zero, suc, ◌+◌, ◌-◌, ◌≤◌, ◌<◌, ◌≡◌, ◌≢◌, refl, sym, ap, ◌∙◌, inl, inr, Option, none, some,
  arith, ltb, ◌==◌, Bool-cases, dec_lt,
}
use routing_mesh.Prelude.Float.{Float}
use routing_mesh.Matrix.{TdmaMatrix, search_id, remove, remove_id_list, remove_id_matrix}
use routing_mesh.Matrix.Remove.{skip, remove_lem}
use routing_mesh.Matrix.Dead.{
  penalise_at, penalise, dropped, expired, remove_dead_from, remove_dead_links, dropped-active,
}
use routing_mesh.Matrix.Sound.{IsSound, SameMesh, same_mesh}

-- where a node stands behind the removal of another one
behind : (p i n : ℕ) → p < n → i < n → i ≢ p → (k : ℕ) × (k < n - 1) × (skip p k ≡ i)
behind p i n h hi ne = elim (dec_lt i p) [
  | yes low ↦ (i, omega arith, ground arith)
  | no high ↦
      let up : p < i = omega (arith, high, ne) in (i - 1, omega (arith, up), ground (arith, up))
]

skip_mono : (p j k : ℕ) → j < k → skip p j < skip p k
skip_mono p j k h = ground arith

skip_within : (p i n : ℕ) → i < n - 1 → skip p i < n
skip_within p i n h = ground arith

module _ {D : Type 0} where
  penalise_at-IsSound :
      (m : TdmaMatrix D) (i : ℕ) (o : Option ℕ) → IsSound m → IsSound (penalise_at m i o)
  unfolding penalise_at
  penalise_at-IsSound m i none s = s
  penalise_at-IsSound m i (some k) s = record {
    rising = s.rising;
    positive = s.positive;
    within = s.within;
    own = s.own;
    no_loop = λ x lt e. ground (arith, s.no_loop x lt e);
  }

  penalise_at-same :
      (m : TdmaMatrix D) (i : ℕ) (o : Option ℕ)
      → let t = penalise_at m i o in (t.ids ≡ m.ids) × (t.active ≡ m.active) × (t.my_id ≡ m.my_id)
  unfolding penalise_at
  penalise_at-same m i none = (refl, refl, refl)
  penalise_at-same m i (some k) = (refl, refl, refl)

  remove-size :
      (m : TdmaMatrix D) (p : ℕ)
      → ((remove m p).active ≡ m.active - 1) × ((remove m p).my_id ≡ m.my_id)
  unfolding remove_id_list remove_id_matrix
  remove-size m p = (refl, refl)

  remove-IsSound :
      (m : TdmaMatrix D) (p : ℕ)
      → p < m.active
      → m.ids p ≢ m.my_id
      → IsSound m
      → IsSound (remove m p)
  remove-IsSound m p h other s =
      let (size, me) = remove-size m p in
      let below : (i : ℕ) → i < (remove m p).active → i < m.active - 1 = λ i lt. rw size at lt in
      let ids = λ (i : ℕ) (lt : i < (remove m p).active).
        (remove_lem m p i i h (below i lt) (below i lt)).1 in
      record {
        rising = λ j k lt hi.
            rw (ids j (omega (arith, lt, hi)), ids k hi)
              (s.rising (skip p j) (skip p k) (skip_mono p j k lt)
                (skip_within p k m.active (below k hi)));
        positive =
            λ i hi. rw (ids i hi) (s.positive (skip p i) (skip_within p i m.active (below i hi)));
        within =
            λ i hi. rw (ids i hi) (s.within (skip p i) (skip_within p i m.active (below i hi)));
        own =
            let (i, lt, e) = s.own in
            let ne : i ≢ p = λ q. other (ap m.ids (sym q) ∙ e) in
            let (k, hi, at) = behind p i m.active h lt ne in
            let hi' : k < (remove m p).active = rw size hi in
            (k, hi', ids k hi' ∙ ap m.ids at ∙ e ∙ sym me);
        no_loop = λ i hi e.
            (remove_lem m p i i h (below i hi) (below i hi)).4
            ∙ s.no_loop (skip p i) (skip_within p i m.active (below i hi))
                (sym (ids i hi) ∙ e ∙ me);
      }

  pub dropped-IsSound :
      (m : TdmaMatrix D) (p : ℕ)
      → p < m.active
      → m.ids p ≢ m.my_id
      → IsSound m
      → IsSound (dropped m p)
  unfolding dropped penalise
  dropped-IsSound m p h other s =
      let o = search_id m m.my_id in
      let (ids, n, me) = penalise_at-same m p o in
      remove-IsSound (penalise_at m p o) p (rw n h) (rw (ids, me) other)
        (penalise_at-IsSound m p o s)

module _ (F : Float) (now : F.T) where
  remove_dead_from-IsSound :
      (fuel i : ℕ) (m : TdmaMatrix F.T) → IsSound m → IsSound (remove_dead_from F now fuel i m)
  unfolding remove_dead_from
  remove_dead_from-IsSound zero i m s = s
  remove_dead_from-IsSound (suc fuel) i m s =
      let next = remove_dead_from-IsSound fuel (i + 1) m s in
      elim (Bool-cases (ltb i m.active)) [
        | inr last ↦ rw last s
        | inl more ↦ elim (Bool-cases (m.ids i == m.my_id)) [
          | inl mine ↦ rw (more, mine) next
          | inr other ↦ elim (Bool-cases (expired F now (m.creation i))) [
            | inr young ↦ rw (more, other, young) next
            | inl old ↦
                rw (more, other, old)
                  (remove_dead_from-IsSound fuel i (dropped m i)
                    (dropped-IsSound m i (ground (arith, more)) (ground (arith, other)) s))
          ]
        ]
      ]

  pub remove_dead_links-IsSound :
      (m : TdmaMatrix F.T) → IsSound m → IsSound (remove_dead_links F now m)
  unfolding remove_dead_links
  remove_dead_links-IsSound m = remove_dead_from-IsSound m.active 0 m

  remove_dead_from-my_id :
      (fuel i : ℕ) (m : TdmaMatrix F.T) → (remove_dead_from F now fuel i m).my_id ≡ m.my_id
  unfolding remove_dead_from
  remove_dead_from-my_id zero i m = refl
  remove_dead_from-my_id (suc fuel) i m =
      let next = remove_dead_from-my_id fuel (i + 1) m in
      let gone = remove_dead_from-my_id fuel i (dropped m i) ∙ (dropped-active F now m i).1 in
      ground (arith, next, gone)

  pub remove_dead_links-my_id : (m : TdmaMatrix F.T) → (remove_dead_links F now m).my_id ≡ m.my_id
  unfolding remove_dead_links
  remove_dead_links-my_id m = remove_dead_from-my_id m.active 0 m

  remove_dead_from-active :
      (fuel i : ℕ) (m : TdmaMatrix F.T)
      → let t = remove_dead_from F now fuel i m in
        (t.active ≤ m.active) × (m.active ≤ t.active → SameMesh m t)
  unfolding remove_dead_from
  remove_dead_from-active zero i m = (omega arith, λ h. same_mesh m)
  remove_dead_from-active (suc fuel) i m =
      let next = remove_dead_from-active fuel (i + 1) m in
      let (below, _) = remove_dead_from-active fuel i (dropped m i) in
      let size = (dropped-active F now m i).0 in
      elim (Bool-cases (ltb i m.active)) [
        | inr last ↦ rw last (omega arith, λ h. same_mesh m)
        | inl more ↦ elim (Bool-cases (m.ids i == m.my_id)) [
          | inl mine ↦ rw (more, mine) next
          | inr other ↦ elim (Bool-cases (expired F now (m.creation i))) [
            | inr young ↦ rw (more, other, young) next
            | inl old ↦
                let lt : i < m.active = ground (arith, more) in
                rw (more, other, old)
                  (omega (arith, below, size), λ h. absurd (omega (arith, below, size, lt, h)))
          ]
        ]
      ]

  -- where no node has left, nothing but qualities and times has changed
  pub remove_dead_links-SameMesh :
      (m : TdmaMatrix F.T)
      → m.active ≤ (remove_dead_links F now m).active
      → SameMesh m (remove_dead_links F now m)
  unfolding remove_dead_links
  remove_dead_links-SameMesh m = (remove_dead_from-active m.active 0 m).1
