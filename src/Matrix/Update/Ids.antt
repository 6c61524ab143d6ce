-- ===== src/Matrix/Update/Ids.antt =====
-- `matrix_update`: the identifiers that are known afterwards.
use routing_mesh.Prelude.{
  ℕ, zero, suc, ◌+◌, ◌≤◌, ◌<◌, ◌≡◌, refl, sym, ap, ap₂, ◌∙◌, subst, inl, inr, Bool, true, false,
  ◌||◌, Option, none, some, List, [], ◌∷◌, ◌++◌, arith, ltb, ◌==◌, if◌then◌else◌, upd, for_up_inv,
  has, slice, slice_ext, slice-snoc_zero, length, length-slice, get_or, Bool-cases, Option-cases,
  ℕ_discrete,
}
use routing_mesh.Prelude.Float.{Float}
use routing_mesh.Matrix.{
  TdmaMatrix, search_from, search_id, update_link_quality, set_link_quality, next_quality,
  change_at, change_quality,
}
use routing_mesh.Matrix.Quality.{search_from-some}
use routing_mesh.Matrix.Update.{
  insert, sort, discover, discovered, discover_ids, copy_line, copy_mine, take_line, fresh,
  merge_line, merged, finished, matrix_update, blank,
}
use routing_mesh.Matrix.Update.Heard.{finished-ids}

-- whether a matrix knows a node
abbrev pub known : {D : Type 0} → TdmaMatrix D → ℕ → Bool
known m id = has id (slice m.ids 0 m.active)

pub has-append : (d : ℕ) (a b : List ℕ) → has d (a ++ b) ≡ (has d a || has d b)
has-append d [] b = refl
has-append d (x ∷ a) b = ground (arith, has-append d a b)

has-insert : (d x : ℕ) (l : List ℕ) → has d (insert x l) ≡ (x == d || has d l)
unfolding insert
has-insert d x [] = refl
has-insert d x (y ∷ l) = ground (arith, has-insert d x l)

pub has-sort : (d : ℕ) (l : List ℕ) → has d (sort l) ≡ has d l
unfolding sort
has-sort d [] = refl
has-sort d (x ∷ l) = has-insert d x (sort l) ∙ ap (λ b. x == d || b) (has-sort d l)

length-insert : (x : ℕ) (l : List ℕ) → length (insert x l) ≡ length l + 1
unfolding insert
length-insert x [] = omega arith
length-insert x (y ∷ l) = ground (arith, length-insert x l)

pub length-sort : (l : List ℕ) → length (sort l) ≡ length l
unfolding sort
length-sort [] = refl
length-sort (x ∷ l) = omega (arith, length-insert x (sort l), length-sort l)

pub slice-get_or : (l : List ℕ) → slice (λ i. get_or l i 0) 0 (length l) ≡ l
slice-get_or [] = refl
slice-get_or (x ∷ l) =
    ap (λ t. x ∷ t)
      (slice_ext (λ i. get_or (x ∷ l) i 0) (λ i. get_or l i 0) 1 0 (length l) shift
        ∙ slice-get_or l)
  where
    shift : (k : ℕ) → k < length l → get_or (x ∷ l) (1 + k) 0 ≡ get_or l (0 + k) 0
    shift k lt =
        let e : 1 + k ≡ suc k = omega arith in
        let e' : 0 + k ≡ k = omega arith in
        ap (λ i. get_or (x ∷ l) i 0) e ∙ ap (λ i. get_or l i 0) (sym e')

pub has-slice : (a : ℕ → ℕ) (i n k : ℕ) → i ≤ k → k < i + n → has (a k) (slice a i n) ≡ true
has-slice a i zero k p q = absurd (omega arith)
has-slice a i (suc n) k p q = elim (ℕ_discrete i k) [
  | yes same ↦ ground (arith, ap a same)
  | no differ ↦ ground (arith, has-slice a (i + 1) n k)
]

has-snoc :
    (d : ℕ) (a : ℕ → ℕ) (n : ℕ) → has d (slice a 0 (n + 1)) ≡ (has d (slice a 0 n) || a n == d)
has-snoc d a n =
    ap (has d) (slice-snoc_zero a n) ∙ has-append d (slice a 0 n) (a n ∷ []) ∙ ground arith

has-upd :
    (d : ℕ) (a : ℕ → ℕ) (n v : ℕ)
    → has d (slice (upd a n v) 0 (n + 1)) ≡ (has d (slice a 0 n) || v == d)
has-upd d a n v =
    has-snoc d (upd a n v) n
    ∙ ap₂ (λ l b. has d l || b == d) (slice_ext (upd a n v) a 0 0 n (λ k lt. ground arith))
        (ground arith)

module _ {D : Type 0} (a b : TdmaMatrix D) (id : ℕ) where
  discover-known :
      (k : ℕ) (r : ℕ × (ℕ → ℕ))
      → has id (slice r.1 0 r.0) ≡ (known a id || has id (slice b.ids 0 k))
      → let t = discover b k r in
        has id (slice t.1 0 t.0) ≡ (known a id || has id (slice b.ids 0 (k + 1)))
  unfolding discover
  discover-known k r ih = elim (Option-cases (search_from r.1 r.0 0 (b.ids k))) [
    | inr (x, at) ↦
        let f = search_from-some r.1 r.0 0 (b.ids k) x at in
        let e : (b.ids k ≡ id → has id (slice r.1 0 r.0) ≡ true) = λ z.
          subst (λ i. has i (slice r.1 0 r.0) ≡ true) (f.here ∙ z)
            (has-slice r.1 0 r.0 x (f.from) (f.below)) in
        rw (discover, at) (ground (arith, ih, e, has-snoc id b.ids k))
    | inl new ↦
        rw (discover, new) (ground (arith, ih, has-snoc id b.ids k, has-upd id r.1 r.0 (b.ids k)))
  ]

  discover_ids-known :
      (final : TdmaMatrix D) → known (discover_ids final a b) id ≡ (known a id || known b id)
  unfolding discover_ids discovered
  discover_ids-known final =
      let r = discovered a b in
      ap (λ n. has id (slice (λ i. get_or (sort (slice r.1 0 r.0)) i 0) 0 n))
        (sym (length-slice r.1 0 r.0) ∙ sym (length-sort (slice r.1 0 r.0)))
      ∙ ap (has id) (slice-get_or (sort (slice r.1 0 r.0)))
      ∙ has-sort id (slice r.1 0 r.0)
      ∙ for_up_inv (λ k t. has id (slice t.1 0 t.0) ≡ (known a id || has id (slice b.ids 0 k)))
          (discover b) b.active 0 b.active (a.active, λ x. if ltb x a.active then a.ids x else 0)
          (omega arith) (λ k r _ _ h. discover-known k r h) first
    where
      first :
          has id (slice (λ x. if ltb x a.active then a.ids x else 0) 0 a.active)
          ≡ (known a id || false)
      first =
          ap (has id) (
            slice_ext (λ x. if ltb x a.active then a.ids x else 0) a.ids 0 0 a.active
              (λ k lt. ground arith))
          ∙ ground arith

-- Two matrices with the same identifiers.
unfoldable pub SameIds : {D : Type 0} → TdmaMatrix D → TdmaMatrix D → Type 0
SameIds m t = (t.ids ≡ m.ids) × (t.active ≡ m.active)

pub same_self : {D : Type 0} (m : TdmaMatrix D) → SameIds m m
unfolding SameIds
same_self m = (refl, refl)

pub SameIds-trans : {D : Type 0} (m t u : TdmaMatrix D) → SameIds m t → SameIds t u → SameIds m u
unfolding SameIds
SameIds-trans m t u p q = (q.0 ∙ p.0, q.1 ∙ p.1)

pub same_known : {D : Type 0} (m t : TdmaMatrix D) (id : ℕ) → SameIds m t → known t id ≡ known m id
unfolding SameIds
same_known m t id h = ap₂ (λ a n. has id (slice a 0 n)) (h.0) (h.1)

pub copy_mine-same :
    {D : Type 0} (mine : TdmaMatrix D) (k i : ℕ) (m : TdmaMatrix D)
    → SameIds m (copy_mine mine k i m)
unfolding copy_mine copy_line SameIds
copy_mine-same mine zero i m = (refl, refl)
copy_mine-same mine (suc k) i m = elim (Option-cases (search_id m (mine.ids i))) [
  | inl gone ↦ rw (copy_mine, gone) (refl, refl)
  | inr (line, at) ↦
      let t = copy_line m mine i line in
      let u = record t {
        creation = upd t.creation line (mine.creation i);
        age = upd t.age line (mine.age i);
      } in
      rw (copy_mine, at) (copy_mine-same mine k (i + 1) u)
]

pub update_link_quality-same :
    {D : Type 0} (m : TdmaMatrix D) (node : ℕ) → SameIds m (update_link_quality m node false)
unfolding update_link_quality change_quality change_at SameIds
update_link_quality-same m node = at (search_id m m.my_id) (search_id m node)
  where
    at : (a b : Option ℕ) → SameIds m (change_at m (next_quality false) a b)
    at none b = (refl, refl)
    at (some i) none = (refl, refl)
    at (some i) (some j) = (refl, refl)

pub set_link_quality-same :
    {D : Type 0} (m : TdmaMatrix D) (node q : ℕ) → SameIds m (set_link_quality m node q)
unfolding set_link_quality change_quality change_at SameIds
set_link_quality-same m node q = at (search_id m m.my_id) (search_id m node)
  where
    at : (a b : Option ℕ) → SameIds m (change_at m (λ _. q) a b)
    at none b = (refl, refl)
    at (some i) none = (refl, refl)
    at (some i) (some j) = (refl, refl)

module _ (F : Float) (now : F.T) (other : ℕ) where
  pub merge_line-same :
      (mine new : TdmaMatrix F.T) (i : ℕ) (m : TdmaMatrix F.T)
      → SameIds m (merge_line F now other mine new i m)
  unfolding merge_line SameIds take_line copy_line
  merge_line-same mine new i m =
      elim (Bool-cases (new.ids i == mine.my_id || F.leb (F.lit 20 1) (new.age i))) [
        | inl skipped ↦ rw (merge_line, skipped) (refl, refl)
        | inr taken ↦
            elim (Bool-cases (fresh F now other mine new i (search_id mine (new.ids i)))) [
              | inr old ↦ rw (merge_line, taken, old) (refl, refl)
              | inl newer ↦ elim (Option-cases (search_id m (new.ids i))) [
                | inl gone ↦ rw (merge_line, taken, newer, gone) (refl, refl)
                | inr (line, at) ↦ rw (merge_line, taken, newer, at) (refl, refl)
              ]
            ]
      ]

  -- the merge keeps the identifiers that `discoverIds` has given
  pub merged-same :
      (mine new : TdmaMatrix F.T)
      → SameIds (discover_ids (blank F now other mine) mine new) (merged F now other mine new)
  unfolding merged
  merged-same mine new =
      let start = discover_ids (blank F now other mine) mine new in
      let final = copy_mine mine mine.active 0 start in
      SameIds-trans start final (merged F now other mine new)
        (copy_mine-same mine mine.active 0 start)
        (for_up_inv (λ _ t. SameIds final t) (merge_line F now other mine new) new.active 0
          new.active final (omega arith)
          (λ k t _ _ h.
            SameIds-trans final t (merge_line F now other mine new k t) h
              (merge_line-same mine new k t))
          (same_self final))

  merged-known :
      (mine new : TdmaMatrix F.T) (id : ℕ)
      → known (merged F now other mine new) id ≡ (known mine id || known new id)
  merged-known mine new id =
      let start = discover_ids (blank F now other mine) mine new in
      same_known start (merged F now other mine new) id (merged-same mine new)
      ∙ discover_ids-known mine new id (blank F now other mine)

  -- After a matrix `new` has been merged, exactly the nodes are known that were known before or that `new` lists.
  pub update-known :
      (g : TdmaMatrix F.T) (tree : ℕ → ℕ → ℕ) (new : TdmaMatrix F.T) (id : ℕ)
      → known ((matrix_update F now other g tree new).0) id ≡ (known g id || known new id)
  unfolding matrix_update SameIds
  update-known g tree new id =
      let mine = update_link_quality g other false in
      same_known (merged F now other mine new) (finished F now other mine new) id
        (finished-ids F now other mine new)
      ∙ merged-known mine new id
      ∙ ap (λ b. b || known new id) (same_known g mine id (update_link_quality-same g other))
