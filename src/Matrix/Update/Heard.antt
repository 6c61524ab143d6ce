-- ===== src/Matrix/Update/Heard.antt =====
-- `matrix_update`: the direct link to the sender.
use routing_mesh.Prelude.{
  ℕ, ◌≤◌, ◌≡◌, refl, sym, ap, ◌∙◌, subst, inl, inr, false, Option, none, some, arith, for_up,
  for_up_inv, Option-cases,
}
use routing_mesh.Prelude.Float.{Float}
use routing_mesh.Matrix.{
  TdmaMatrix, search_id, next_quality, change_at, change_quality, update_link_quality,
}
use routing_mesh.Matrix.Update.{
  copy_quality_at, copy_quality, fill_quality, boost, when_found, heard, merged, finished,
  matrix_update,
}

-- two matrices that differ in their qualities and times only
pub record SameLinks {D : Type 0} (m t : TdmaMatrix D) : Type 0 where
  pub ids : t.ids ≡ m.ids
  pub active : t.active ≡ m.active
  pub matrix : t.matrix ≡ m.matrix

module _ {D : Type 0} where
  same : (m : TdmaMatrix D) → SameLinks m m
  same m = record { ids = refl; active = refl; matrix = refl }

  same_trans : {m t u : TdmaMatrix D} → SameLinks m t → SameLinks t u → SameLinks m u
  same_trans p q = record {
    ids = q.ids ∙ p.ids;
    active = q.active ∙ p.active;
    matrix = q.matrix ∙ p.matrix;
  }

  pub search_id-same :
      (m t : TdmaMatrix D) (id : ℕ)
      → t.ids ≡ m.ids
      → t.active ≡ m.active
      → search_id t id ≡ search_id m id
  unfolding search_id
  search_id-same m t id a b = cc

  copy_quality_at-same :
      (mine : TdmaMatrix D) (i j : ℕ) (m : TdmaMatrix D) → SameLinks m (copy_quality_at mine i j m)
  unfolding copy_quality_at
  copy_quality_at-same mine i j m = elim (Option-cases (search_id m (mine.ids i))) [
    | inl gone ↦ rw (copy_quality_at, gone) (same m)
    | inr (p, at) ↦ elim (Option-cases (search_id m (mine.ids j))) [
      | inl gone ↦ rw (copy_quality_at, at, gone) (same m)
      | inr (q, at') ↦
          rw (copy_quality_at, at, at') (record { ids = refl; active = refl; matrix = refl })
    ]
  ]

  copy_quality-same : (mine m : TdmaMatrix D) → SameLinks m (copy_quality mine m)
  unfolding copy_quality
  copy_quality-same mine m =
      for_up_inv (λ _ t. SameLinks m t) (λ i t. for_up mine.active 0 (copy_quality_at mine i) t)
        mine.active 0 mine.active m (omega arith)
        (λ i t _ _ h.
          for_up_inv (λ _ u. SameLinks m u) (copy_quality_at mine i) mine.active 0 mine.active t
            (omega arith) (λ j u _ _ k. same_trans k (copy_quality_at-same mine i j u)) h)
        (same m)

  when_found-both :
      (m : TdmaMatrix D) (a b i j : ℕ) (f : ℕ → ℕ → TdmaMatrix D → TdmaMatrix D) (t : TdmaMatrix D)
      → search_id m a ≡ some i
      → search_id m b ≡ some j
      → when_found m a b f t ≡ f i j t
  unfolding when_found
  when_found-both m a b i j f t p q = rw (when_found, p, q)

  boost-quality : (i j : ℕ) (m : TdmaMatrix D) → 110 ≤ (boost i j m).quality i j
  unfolding boost
  boost-quality i j m = ground arith

update_link_quality-id :
    {D : Type 0} (m : TdmaMatrix D) (node : ℕ) → (update_link_quality m node false).my_id ≡ m.my_id
unfolding update_link_quality change_quality change_at
update_link_quality-id m node = at (search_id m m.my_id) (search_id m node)
  where
    at : (a b : Option ℕ) → (change_at m (next_quality false) a b).my_id ≡ m.my_id
    at none b = refl
    at (some i) none = refl
    at (some i) (some j) = refl

module _ (F : Float) (now : F.T) (other : ℕ) where
  when_found-kept :
      (m : TdmaMatrix F.T) (a : ℕ) (f : ℕ → ℕ → TdmaMatrix F.T → TdmaMatrix F.T)
      (t : TdmaMatrix F.T)
      → ((i j : ℕ) → ((f i j t).ids ≡ t.ids) × ((f i j t).active ≡ t.active))
      → ((when_found m a other f t).ids ≡ t.ids) × ((when_found m a other f t).active ≡ t.active)
  unfolding when_found
  when_found-kept m a f t h = elim (Option-cases (search_id m a)) [
    | inl gone ↦ rw (when_found, gone) (refl, refl)
    | inr (i, at) ↦ elim (Option-cases (search_id m other)) [
      | inl gone ↦ rw (when_found, at, gone) (refl, refl)
      | inr (j, at') ↦ rw (when_found, at, at') (h i j)
    ]
  ]

  pub finished-ids :
      (mine new : TdmaMatrix F.T)
      → let m = merged F now other mine new in
        let t = finished F now other mine new in (t.ids ≡ m.ids) × (t.active ≡ m.active)
  unfolding finished fill_quality boost heard
  finished-ids mine new =
      let m = merged F now other mine new in
      let a = when_found-kept m mine.my_id (heard F now other) m (λ i j. (refl, refl)) in
      let h = when_found m mine.my_id other (heard F now other) m in
      let c = copy_quality-same mine h in
      let b =
        when_found-kept m mine.my_id boost (fill_quality (copy_quality mine h))
          (λ i j. (refl, refl)) in
      (b.0 ∙ c.ids ∙ a.0, b.1 ∙ c.active ∙ a.1)

  -- the matrix after the direct link was noted
  linked_matrix :
      (mine new : TdmaMatrix F.T) (i j : ℕ)
      → search_id (merged F now other mine new) mine.my_id ≡ some i
      → search_id (merged F now other mine new) other ≡ some j
      → ((finished F now other mine new).matrix i j ≡ 1)
        × (110 ≤ (finished F now other mine new).quality i j)
  unfolding finished fill_quality boost heard
  linked_matrix mine new i j p q =
      let m = merged F now other mine new in
      let h = when_found m mine.my_id other (heard F now other) m in
      let e =
        when_found-both m mine.my_id other i j boost (fill_quality (copy_quality mine h)) p q in
      (
        ap (λ (t : TdmaMatrix F.T). t.matrix i j) e
            ∙ noted h (when_found-both m mine.my_id other i j (heard F now other) m p q),
        subst (λ (t : TdmaMatrix F.T). 110 ≤ t.quality i j) (sym e)
            (boost-quality i j (fill_quality (copy_quality mine h))),
      )
    where
      noted :
          (h : TdmaMatrix F.T)
          → h ≡ heard F now other i j (merged F now other mine new)
          → (boost i j (fill_quality (copy_quality mine h))).matrix i j ≡ 1
      noted h e =
          ap (λ (a : ℕ → ℕ → ℕ). a i j)
            ((copy_quality-same mine h).matrix ∙ ap (λ (t : TdmaMatrix F.T). t.matrix) e)
          ∙ ground arith

  -- After a matrix from `other` has been merged: where this node stands at index i and `other` at index j, the link
  -- from i to j is set, and its quality is at least 110.
  pub update_links :
      (g : TdmaMatrix F.T) (tree : ℕ → ℕ → ℕ) (new : TdmaMatrix F.T) (i j : ℕ)
      → let m = (matrix_update F now other g tree new).0 in
        search_id m g.my_id ≡ some i
        → search_id m other ≡ some j
        → (m.matrix i j ≡ 1) × (110 ≤ m.quality i j)
  unfolding matrix_update
  update_links g tree new i j p q =
      let mine = update_link_quality g other false in
      let kept = finished-ids mine new in
      let at = λ (id : ℕ).
        search_id-same (merged F now other mine new) (finished F now other mine new) id (kept.0)
          (kept.1) in
      linked_matrix mine new i j
        (ap (search_id (merged F now other mine new)) (update_link_quality-id g other)
          ∙ sym (at g.my_id)
          ∙ p)
        (sym (at other) ∙ q)
