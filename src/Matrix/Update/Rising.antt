-- ===== src/Matrix/Update/Rising.antt =====
-- `discoverIds`: the identifiers come out in rising order, each once.
use routing_mesh.Prelude.{
  ℕ, zero, suc, ◌+◌, ◌≤◌, ◌<◌, ◌≡◌, refl, sym, ap, ap₂, ◌∙◌, subst, inl, inr, false, none, List, [],
  ◌∷◌, ◌++◌, arith, ltb, leb, if◌then◌else◌, upd, for_up_inv, has, slice, slice_ext,
  slice-snoc_zero, length-slice, get_or, Bool-cases, Option-cases, ℕ_discrete,
}
use routing_mesh.Prelude.Float.{Float}
use routing_mesh.Matrix.{TdmaMatrix, search_from, update_link_quality}
use routing_mesh.Matrix.Update.{
  insert, sort, discover, discovered, discover_ids, merged, finished, matrix_update, blank,
}
use routing_mesh.Matrix.Update.Heard.{finished-ids}
use routing_mesh.Matrix.Update.Ids.{
  SameIds, SameIds-trans, merged-same, update_link_quality-same, length-sort, slice-get_or,
  has-sort, has-append,
}

-- no number twice
unfoldable pub Apart : List ℕ → Type 0
Apart [] = Unit
Apart (x ∷ l) = (has x l ≡ false) × Apart l

-- above a number, and in rising order
pub Above : ℕ → List ℕ → Type 0
Above x [] = Unit
Above x (y ∷ l) = (x < y) × Above x l

pub Rising : List ℕ → Type 0
Rising [] = Unit
Rising (x ∷ l) = Above x l × Rising l

Above-trans : (x y : ℕ) (l : List ℕ) → x < y → Above y l → Above x l
unfolding Above
Above-trans x y [] h a = tt
Above-trans x y (z ∷ l) h (a, b) = (omega (arith, h, a), Above-trans x y l h b)

Above-insert : (x y : ℕ) (l : List ℕ) → x < y → Above x l → Above x (insert y l)
unfolding Above insert
Above-insert x y [] h a = (h, tt)
Above-insert x y (z ∷ l) h (a, b) = elim (Bool-cases (leb y z)) [
  | inl low ↦ rw (insert, low) (h, (a, b))
  | inr high ↦ rw (insert, high) (a, Above-insert x y l h b)
]

Rising-insert : (x : ℕ) (l : List ℕ) → has x l ≡ false → Rising l → Rising (insert x l)
unfolding Rising insert Above
Rising-insert x [] h r = (tt, tt)
Rising-insert x (y ∷ l) h (a, r) = elim (Bool-cases (leb x y)) [
  | inl low ↦
      let lt : x < y = ground (arith, low, h) in
      rw (insert, low) ((lt, Above-trans x y l lt a), (a, r))
  | inr high ↦
      rw (insert, high)
        (Above-insert y x l (ground (arith, high)) a, Rising-insert x l (ground (arith, h)) r)
]

Rising-sort : (l : List ℕ) → Apart l → Rising (sort l)
unfolding Rising sort Apart
Rising-sort [] h = tt
Rising-sort (x ∷ l) (new, h) = Rising-insert x (sort l) (has-sort x l ∙ new) (Rising-sort l h)

Apart-snoc : (x : ℕ) (l : List ℕ) → Apart l → has x l ≡ false → Apart (l ++ x ∷ [])
unfolding Apart
Apart-snoc x [] h new = (refl, tt)
Apart-snoc x (y ∷ l) (a, h) new =
    (ground (arith, has-append y l (x ∷ []), a, new), Apart-snoc x l h (ground (arith, new)))

search_from-has :
    (ids : ℕ → ℕ) (n i v : ℕ) → search_from ids n i v ≡ none → has v (slice ids i n) ≡ false
unfolding search_from
search_from-has ids zero i v h = refl
search_from-has ids (suc n) i v h = ground (arith, h, search_from-has ids n (i + 1) v)

module _ {D : Type 0} (a b : TdmaMatrix D) where
  discover-Apart :
      (k : ℕ) (r : ℕ × (ℕ → ℕ))
      → Apart (slice r.1 0 r.0)
      → let t = discover b k r in Apart (slice t.1 0 t.0)
  unfolding discover
  discover-Apart k r h = elim (Option-cases (search_from r.1 r.0 0 (b.ids k))) [
    | inr (x, at) ↦ rw (discover, at) h
    | inl new ↦
        let n = r.0 in
        let ids' = upd r.1 n (b.ids k) in
        let e : slice ids' 0 (n + 1) ≡ slice r.1 0 n ++ b.ids k ∷ [] =
          slice-snoc_zero ids' n
          ∙ ap₂ (λ l v. l ++ v ∷ []) (slice_ext ids' r.1 0 0 n (λ i lt. ground arith))
              (ground arith) in
        rw (discover, new)
          (subst Apart (sym e)
            (Apart-snoc (b.ids k) (slice r.1 0 n) h (search_from-has r.1 n 0 (b.ids k) new)))
  ]

  discovered-Apart :
      Apart (slice a.ids 0 a.active) → let r = discovered a b in Apart (slice r.1 0 r.0)
  unfolding discovered
  discovered-Apart h =
      for_up_inv (λ _ (t : ℕ × (ℕ → ℕ)). Apart (slice t.1 0 t.0)) (discover b) b.active 0 b.active
        (a.active, λ x. if ltb x a.active then a.ids x else 0) (omega arith)
        (λ k r _ _ g. discover-Apart k r g)
        (subst Apart
          (sym (
            slice_ext (λ x. if ltb x a.active then a.ids x else 0) a.ids 0 0 a.active
              (λ k lt. ground arith)))
          h)

  pub discover_ids-Rising :
      (final : TdmaMatrix D)
      → Apart (slice a.ids 0 a.active)
      → let t = discover_ids final a b in Rising (slice t.ids 0 t.active)
  unfolding discover_ids
  discover_ids-Rising final h =
      let r = discovered a b in
      let l = sort (slice r.1 0 r.0) in
      subst Rising
        (sym (
          ap (slice (λ i. get_or l i 0) 0)
            (sym (length-slice r.1 0 r.0) ∙ sym (length-sort (slice r.1 0 r.0)))
          ∙ slice-get_or l))
        (Rising-sort (slice r.1 0 r.0) (discovered-Apart h))

Above-at : (x : ℕ) (a : ℕ → ℕ) (i n k : ℕ) → Above x (slice a i n) → i ≤ k → k < i + n → x < a k
unfolding Above
Above-at x a i zero k h p q = absurd (omega arith)
Above-at x a i (suc n) k (b, h) p q = elim (ℕ_discrete i k) [
  | yes same ↦ ground (arith, ap a same, b)
  | no other ↦ Above-at x a (i + 1) n k h (omega (arith, other)) (omega arith)
]

-- by index
pub Rising-at :
    (a : ℕ → ℕ) (i n j k : ℕ) → Rising (slice a i n) → i ≤ j → j < k → k < i + n → a j < a k
unfolding Rising
Rising-at a i zero j k r p q s = absurd (omega arith)
Rising-at a i (suc n) j k (b, r) p q s = elim (ℕ_discrete i j) [
  | yes same ↦
      let e = Above-at (a i) a (i + 1) n k b (omega (arith, same)) (omega arith) in
      ground (arith, ap a same, e)
  | no other ↦ Rising-at a (i + 1) n j k r (omega (arith, other)) q (omega arith)
]

module _ (F : Float) (now : F.T) (other : ℕ) where
  -- the matrix behind a merge
  pub update-Rising :
      (g : TdmaMatrix F.T) (tree : ℕ → ℕ → ℕ) (new : TdmaMatrix F.T)
      → Apart (slice g.ids 0 g.active)
      → let t = (matrix_update F now other g tree new).0 in Rising (slice t.ids 0 t.active)
  unfolding SameIds matrix_update
  update-Rising g tree new h =
      let mine = update_link_quality g other false in
      let start = discover_ids (blank F now other mine) mine new in
      let same = update_link_quality-same g other in
      let fin =
        SameIds-trans start (merged F now other mine new) (finished F now other mine new)
          (merged-same F now other mine new) (finished-ids F now other mine new) in
      subst Rising (sym (ap₂ (λ a n. slice a 0 n) (fin.0) (fin.1))) (
        discover_ids-Rising mine new (blank F now other mine)
          (subst Apart (sym (ap₂ (λ a n. slice a 0 n) (same.0) (same.1))) h))
