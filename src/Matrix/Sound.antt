-- ===== src/Matrix/Sound.antt =====
-- What holds of the matrix of this node between two calls of matrix.c, and the calls that change qualities and times only.
use routing_mesh.Prelude.{
  ℕ, zero, suc, ◌+◌, ◌≤◌, ◌<◌, ◌≡◌, ◌≢◌, refl, sym, ap, ◌∙◌, subst, Bool, true, false, Option, none,
  some, arith, has, slice, ℕ_discrete, dec_lt,
}
use routing_mesh.Matrix.{
  TdmaMatrix, search_from, search_id, change_at, change_quality, update_link_quality,
  set_link_quality, next_quality,
}
use routing_mesh.Matrix.Quality.{search_from-found, search_from-some}
use routing_mesh.Matrix.Update.Ids.{known, has-slice}
use routing_mesh.Matrix.Update.Rising.{Apart}

absent :
    (d : ℕ) (a : ℕ → ℕ) (i n : ℕ)
    → ((k : ℕ) → i ≤ k → k < i + n → a k ≢ d)
    → has d (slice a i n) ≡ false
absent d a i zero h = refl
absent d a i (suc n) h =
    let first : a i ≢ d = h i (omega arith) (omega arith) in
    ground
      (arith, first, absent d a (i + 1) n (λ k lo hi. h k (omega (arith, lo)) (omega (arith, hi))))

rising-Apart :
    (a : ℕ → ℕ) (i n : ℕ)
    → ((j k : ℕ) → i ≤ j → j < k → k < i + n → a j < a k)
    → Apart (slice a i n)
unfolding Apart
rising-Apart a i zero h = tt
rising-Apart a i (suc n) h = (
  absent (a i) a (i + 1) n
      (λ k lo hi e. omega (arith, e, h i k (omega arith) (omega (arith, lo)) (omega (arith, hi)))),
  rising-Apart a (i + 1) n (λ j k lo lt hi. h j k (omega (arith, lo)) lt (omega (arith, hi))),
)

-- At most 15 nodes are listed, with identifiers from 1 to 15. So many fit the payload that serializeMatrix allocates, and
-- they are below MAX_NODES = 20, the size of the arrays.
unfoldable pub ListsNodes : {D : Type 0} → TdmaMatrix D → Type 0
ListsNodes m = (m.active ≤ 15) × ((id : ℕ) → known m id ≡ true → (1 ≤ id) × (id ≤ 15))

-- The identifiers in use rise with the index and are from 1 to 15, this node's is among them, and this node has no link to itself.
pub record IsSound {D : Type 0} (m : TdmaMatrix D) : Type 0 where
  pub rising : (j k : ℕ) → j < k → k < m.active → m.ids j < m.ids k
  pub positive : (i : ℕ) → i < m.active → 1 ≤ m.ids i
  pub within : (i : ℕ) → i < m.active → m.ids i ≤ 15
  pub own : (i : ℕ) × (i < m.active) × (m.ids i ≡ m.my_id)
  pub no_loop : (i : ℕ) → i < m.active → m.ids i ≡ m.my_id → m.matrix i i ≡ 0

module _ {D : Type 0} (m : TdmaMatrix D) (s : IsSound m) where
  pub same_index : (i j : ℕ) → i < m.active → j < m.active → m.ids i ≡ m.ids j → i ≡ j
  same_index i j p q e = elim (dec_lt i j) [
    | yes before ↦ absurd (omega (arith, s.rising i j before q, e))
    | no after ↦ elim (dec_lt j i) [
      | yes before ↦ absurd (omega (arith, s.rising j i before p, e))
      | no after' ↦ omega (arith, after, after')
    ]
  ]

  -- the search for this node finds it
  pub own_found :
      (i : ℕ) → i < m.active → m.ids i ≡ m.my_id → search_from m.ids m.active 0 m.my_id ≡ some i
  own_found i lt e =
      let (k, found, le) =
        search_from-found m.ids m.active 0 m.my_id i (omega arith) (omega (arith, lt)) e in
      let f = search_from-some m.ids m.active 0 m.my_id k found in
      found ∙ ap some (same_index k i (omega (arith, f.below)) lt (f.here ∙ sym e))

  pub own_known : known m m.my_id ≡ true
  own_known =
      let (i, lt, e) = s.own in
      subst (λ id. known m id ≡ true) e
        (has-slice m.ids 0 m.active i (omega arith) (omega (arith, lt)))

  pub ids-Apart : Apart (slice m.ids 0 m.active)
  ids-Apart = rising-Apart m.ids 0 m.active (λ j k lo lt hi. s.rising j k lt (omega (arith, hi)))

-- a known identifier stands somewhere
pub has-index :
    (d : ℕ) (a : ℕ → ℕ) (i n : ℕ)
    → has d (slice a i n) ≡ true
    → (k : ℕ) × (i ≤ k) × (k < i + n) × (a k ≡ d)
has-index d a i zero h = absurd (ground (arith, h))
has-index d a i (suc n) h = elim (ℕ_discrete (a i) d) [
  | yes here ↦ (i, omega arith, omega arith, here)
  | no other ↦
      let (k, lo, hi, e) = has-index d a (i + 1) n (ground (arith, h)) in
      (k, omega (arith, lo), omega (arith, hi), e)
]

-- identifiers that rise from 1 to 15 are at most 15
module _ {D : Type 0} (m : TdmaMatrix D) where
  rising_above :
      ((j k : ℕ) → j < k → k < m.active → m.ids j < m.ids k)
      → ((i : ℕ) → i < m.active → 1 ≤ m.ids i)
      → (i : ℕ) → i < m.active
      → i < m.ids i
  rising_above up low zero h = low zero h
  rising_above up low (suc i) h =
      omega (arith, rising_above up low i (omega (arith, h)), up i (suc i) (omega arith) h)

  pub rising_few :
      ((j k : ℕ) → j < k → k < m.active → m.ids j < m.ids k)
      → ((i : ℕ) → i < m.active → 1 ≤ m.ids i)
      → ((i : ℕ) → i < m.active → m.ids i ≤ 15)
      → m.active ≤ 15
  rising_few up low high = elim (dec_lt 15 m.active) [
    | yes many ↦ absurd (omega (arith, rising_above up low 15 many, high 15 many))
    | no few ↦ omega (arith, few)
  ]

pub IsSound-few : {D : Type 0} (m : TdmaMatrix D) → IsSound m → m.active ≤ 15
IsSound-few m s = rising_few m s.rising s.positive s.within

pub IsSound-ListsNodes : {D : Type 0} (m : TdmaMatrix D) → IsSound m → ListsNodes m
unfolding ListsNodes
IsSound-ListsNodes m s = (
  IsSound-few m s,
  λ id h.
      let (k, lo, hi, e) = has-index id m.ids 0 m.active h in
      (omega (arith, e, s.positive k (omega arith)), omega (arith, e, s.within k (omega arith))),
)

-- a matrix with the same nodes and links
pub record SameMesh {D : Type 0} (m t : TdmaMatrix D) : Type 0 where
  pub ids : t.ids ≡ m.ids
  pub active : t.active ≡ m.active
  pub my_id : t.my_id ≡ m.my_id
  pub matrix : t.matrix ≡ m.matrix

pub same_mesh : {D : Type 0} (m : TdmaMatrix D) → SameMesh m m
same_mesh m = record { ids = refl; active = refl; my_id = refl; matrix = refl }

pub SameMesh-sym : {D : Type 0} {m t : TdmaMatrix D} → SameMesh m t → SameMesh t m
SameMesh-sym p = record {
  ids = sym p.ids;
  active = sym p.active;
  my_id = sym p.my_id;
  matrix = sym p.matrix;
}

pub SameMesh-trans :
    {D : Type 0} {m t u : TdmaMatrix D} → SameMesh m t → SameMesh t u → SameMesh m u
SameMesh-trans p q = record {
  ids = q.ids ∙ p.ids;
  active = q.active ∙ p.active;
  my_id = q.my_id ∙ p.my_id;
  matrix = q.matrix ∙ p.matrix;
}

pub SameMesh-IsSound : {D : Type 0} (m t : TdmaMatrix D) → SameMesh m t → IsSound m → IsSound t
SameMesh-IsSound m t e s = record {
  rising = λ j k lt hi. rw e.ids (s.rising j k lt (rw e.active at hi));
  positive = λ i hi. rw e.ids (s.positive i (rw e.active at hi));
  within = λ i hi. rw e.ids (s.within i (rw e.active at hi));
  own = rw (e.ids, e.active, e.my_id) s.own;
  no_loop = λ i hi q. rw e.matrix (s.no_loop i (rw e.active at hi) (rw (e.ids, e.my_id) at q));
}

change_quality-SameMesh :
    {D : Type 0} (m : TdmaMatrix D) (node : ℕ) (f : ℕ → ℕ) → SameMesh m (change_quality m node f)
unfolding change_quality change_at
change_quality-SameMesh {D} m node f = at (search_id m m.my_id) (search_id m node)
  where
    at : (a b : Option ℕ) → SameMesh m (change_at m f a b)
    at none b = same_mesh m
    at (some i) none = same_mesh m
    at (some i) (some j) = record { ids = refl; active = refl; my_id = refl; matrix = refl }

pub update_link_quality-SameMesh :
    {D : Type 0} (m : TdmaMatrix D) (node : ℕ) (late : Bool)
    → SameMesh m (update_link_quality m node late)
unfolding update_link_quality
update_link_quality-SameMesh m node late = change_quality-SameMesh m node (next_quality late)

pub set_link_quality-SameMesh :
    {D : Type 0} (m : TdmaMatrix D) (node q : ℕ) → SameMesh m (set_link_quality m node q)
unfolding set_link_quality
set_link_quality-SameMesh m node q = change_quality-SameMesh m node (λ _. q)
