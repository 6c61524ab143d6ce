-- ===== src/Matrix/Wire/RoundTrip.antt =====
-- What `deserializeMatrix` reads is what `serializeMatrix` wrote, up to 15 nodes.
use routing_mesh.Prelude.{
  ℕ, ◌+◌, ◌-◌, ◌*◌, ◌/◌, ◌%◌, ◌≤◌, ◌<◌, ◌≡◌, refl, ◌∙◌, ap, ap₂, arith, for_up_inv, ℕ_discrete, upd,
}
use routing_mesh.Matrix.{TdmaMatrix}
use routing_mesh.Matrix.Wire.{
  Layout, copy, ids_size, age_size, ids_start, matrix_start, age_start, payload_len, double_bytes,
  copy_rows, payload, deserialize,
}

copy-in :
    (buf : ℕ → ℕ) (at : ℕ) (src : ℕ → ℕ) (n x : ℕ) → x < n → copy buf at src n (at + x) ≡ src x
unfolding copy
copy-in buf at src n x h = ground arith

copy-out :
    (buf : ℕ → ℕ) (at : ℕ) (src : ℕ → ℕ) (n x : ℕ)
    → (x < at → ⊥)
    → (x < at + n → ⊥)
    → copy buf at src n x ≡ buf x
unfolding copy
copy-out buf at src n x h k = ground arith

copy-before : (buf : ℕ → ℕ) (at : ℕ) (src : ℕ → ℕ) (n x : ℕ) → x < at → copy buf at src n x ≡ buf x
unfolding copy
copy-before buf at src n x h = ground arith

copy-start : (buf src : ℕ → ℕ) (n x : ℕ) → x < n → copy buf 0 src n x ≡ src x
unfolding copy
copy-start buf src n x h = ground arith

cell-lt : (n x k y : ℕ) → x < k → y < n → n * x + y < n * k
cell-lt n x k y h j = grind arith

-- Up to 15 nodes no position of `parameterPos` wraps at 256: the regions follow one another, and end
-- with the payload.
pub positions :
    (n : ℕ)
    → n ≤ 15
    → (matrix_start n ≡ n + 2)
      × (age_start n ≡ n + 2 + n * n + 1)
      × (ids_size n ≡ n)
      × (age_size n ≡ 8 * (n + 1))
      × (payload_len n ≡ age_start n + age_size n)
positions n h = let sq : n * n ≤ 225 = grind arith in omega arith

module _ {D : Type 0} (l : Layout D) (m : TdmaMatrix D) where
  abbrev at_row : ℕ → ℕ
  at_row x = matrix_start m.active + m.active * x

  row_step :
      (k : ℕ) (b : ℕ → ℕ)
      → ((x y : ℕ) → x < k → y < m.active → b (at_row x + y) ≡ m.matrix x y)
      → (x y : ℕ) → x < k + 1
      → y < m.active
      → copy b (at_row k) (m.matrix k) m.active (at_row x + y) ≡ m.matrix x y
  row_step k b ih x y hx hy = elim (ℕ_discrete x k) [
    | yes e ↦ rw e (copy-in b (at_row k) (m.matrix k) m.active y hy)
    | no other ↦
        let lt : x < k = omega arith in
        copy-before b (at_row k) (m.matrix k) m.active (at_row x + y)
          (omega (arith, cell-lt m.active x k y lt hy))
        ∙ ih x y lt hy
  ]

  copy_rows-cell :
      (buf : ℕ → ℕ) (x y : ℕ)
      → x < m.active
      → y < m.active
      → copy_rows l m buf (matrix_start m.active + m.active * x + y) ≡ m.matrix x y
  unfolding copy_rows
  copy_rows-cell buf x y hx hy =
      for_up_inv
        (λ k (b : ℕ → ℕ).
          (x y : ℕ)
          → x < k
          → y < m.active
          → b (matrix_start m.active + m.active * x + y) ≡ m.matrix x y)
        (λ x b. copy b (matrix_start m.active + m.active * x) (m.matrix x) m.active) m.active 0
        m.active buf (omega arith) (λ k b low high ih x y hx hy. row_step k b ih x y hx hy)
        (λ x y h. absurd (omega arith)) x y hx hy

  copy_rows-before : (buf : ℕ → ℕ) (z : ℕ) → z < matrix_start m.active → copy_rows l m buf z ≡ buf z
  unfolding copy_rows
  copy_rows-before buf z h =
      for_up_inv (λ k (b : ℕ → ℕ). b z ≡ buf z)
        (λ x b. copy b (matrix_start m.active + m.active * x) (m.matrix x) m.active) m.active 0
        m.active buf (omega arith)
        (λ k b low high ih. copy-before b (at_row k) (m.matrix k) m.active z (omega arith) ∙ ih)
        refl

  -- From 16 nodes to MAX_NODES, where the position of the ages wraps: `serializeMatrix` writes the last entry of the matrix
  -- behind the payload_len bytes that it has allocated.
  pub rows_overflow :
      (buf : ℕ → ℕ)
      → 16 ≤ m.active
      → m.active ≤ 20
      → (at : ℕ) × (payload_len m.active ≤ at)
        × (copy_rows l m buf at ≡ m.matrix (m.active - 1) (m.active - 1))
  rows_overflow buf a b =
      let n = m.active in
      let low : 15 * n ≤ n * (n - 1) = grind arith in
      let high : n * (n - 1) ≤ 19 * n = grind arith in
      let last : n ≡ n - 1 + 1 = omega arith in
      let spread : n * (n - 1 + 1) ≡ n * (n - 1) + n = grind arith in
      let sq : n * n ≡ n * (n - 1) + n = ap (λ k. n * k) last ∙ spread in
      (
        matrix_start n + n * (n - 1) + (n - 1),
        omega (arith, low, high, sq),
        copy_rows-cell buf (n - 1) (n - 1) (omega arith) (omega arith),
      )

module _ {D : Type 0} (l : Layout D) (m : TdmaMatrix D) (small : m.active ≤ 15) where
  abbrev sent : ℕ → ℕ
  sent = payload l m

  -- what stands before the ages is what was there when the rows had been copied
  before_ages :
      (z : ℕ)
      → z < age_start m.active
      → sent z
        ≡ copy_rows l m
            (copy (copy (λ _. 0) 0 (λ _. m.active) 1) ids_start m.ids (ids_size m.active))
            z
  unfolding payload
  before_ages z h =
      copy-before _ (age_start m.active) (double_bytes l m.age) (age_size m.active) z h

  head_byte : sent 0 ≡ m.active
  head_byte =
      let p = positions m.active small in
      before_ages 0 (omega (arith, p))
      ∙ copy_rows-before l m _ 0 (omega (arith, p))
      ∙ copy-before _ ids_start m.ids (ids_size m.active) 0 (omega arith)
      ∙ first
    where
      first : copy (λ _. 0) 0 (λ _. m.active) 1 0 ≡ m.active
      first = copy-in (λ _. 0) 0 (λ _. m.active) 1 0 (omega arith)

  id_byte : (i : ℕ) → i < m.active → sent (ids_start + i) ≡ m.ids i
  id_byte i h =
      let p = positions m.active small in
      before_ages (ids_start + i) (omega (arith, p))
      ∙ copy_rows-before l m _ (ids_start + i) (omega (arith, p))
      ∙ copy-in _ ids_start m.ids (ids_size m.active) i (omega (arith, p))

  matrix_byte : (i j : ℕ) → i < m.active → j < m.active → sent (at_row l m i + j) ≡ m.matrix i j
  matrix_byte i j hi hj =
      let p = positions m.active small in
      before_ages (at_row l m i + j) (omega (arith, p, cell-lt m.active i m.active j hi hj))
      ∙ copy_rows-cell l m _ i j hi hj

  age_byte :
      (i k : ℕ) → i < m.active → k < 8 → sent (age_start m.active + (8 * i + k)) ≡ l.put (m.age i) k
  unfolding payload double_bytes
  age_byte i k hi hk =
      let p = positions m.active small in
      let q : (8 * i + k) / 8 ≡ i = omega arith in
      let r : (8 * i + k) % 8 ≡ k = omega arith in
      copy-in _ (age_start m.active) (double_bytes l m.age) (age_size m.active) (8 * i + k)
        (omega (arith, p))
      ∙ ap₂ (λ a b. l.put (m.age a) b) q r

-- row i of the matrix that is read
read_cell :
    {D : Type 0} (l : Layout D) (pkt : ℕ → ℕ) (i j : ℕ)
    → i < pkt 0
    → j < pkt 0
    → (deserialize l pkt).matrix i j ≡ pkt (matrix_start (pkt 0) + pkt 0 * i + j)
unfolding deserialize
read_cell l pkt i j hi hj =
    for_up_inv
      (λ k (a : ℕ → ℕ → ℕ).
        (x y : ℕ) → x < k → y < pkt 0 → a x y ≡ pkt (matrix_start (pkt 0) + pkt 0 * x + y))
      (λ x a. upd a x (copy (a x) 0 (λ y. pkt (matrix_start (pkt 0) + pkt 0 * x + y)) (pkt 0)))
      (pkt 0) 0 (pkt 0) (λ _ _. 0) (omega arith)
      (λ k a low high ih x y hx hy. ground (
        arith,
        ih x y,
        copy-start (a k) (λ y. pkt (matrix_start (pkt 0) + pkt 0 * k + y)) (pkt 0) y,
      ))
      (λ x y h. absurd (omega arith)) i j hi hj

-- The nodes that are read from a buffer that starts with a payload.
pub deserialize-nodes :
    {D : Type 0} (l : Layout D) (m : TdmaMatrix D) (pkt : ℕ → ℕ)
    → m.active ≤ 15
    → ((z : ℕ) → z < payload_len m.active → pkt z ≡ payload l m z)
    → let t = deserialize l pkt in
      (t.active ≡ m.active) × ((i : ℕ) → i < m.active → t.ids i ≡ m.ids i)
unfolding deserialize
deserialize-nodes l m pkt small agree =
    let p = positions m.active small in
    let n : pkt 0 ≡ m.active = agree 0 (omega (arith, p)) ∙ head_byte l m small in
    (
      n,
      λ i hi.
          copy-start (λ _. 0) (λ x. pkt (ids_start + x)) (ids_size (pkt 0)) i
            (rw n (omega (arith, p)))
          ∙ agree (ids_start + i) (omega (arith, p))
          ∙ id_byte l m small i hi,
    )

-- With at most 15 nodes, what a receiver reads from a payload is what the sender's matrix held: the
-- number of nodes and, for all nodes i and j in use, their identifiers, the ages and the matrix.
pub deserialize-payload :
    {D : Type 0} (l : Layout D) (m : TdmaMatrix D) (i j : ℕ)
    → m.active ≤ 15
    → i < m.active
    → j < m.active
    → let t = deserialize l (payload l m) in
      (t.active ≡ m.active)
      × (t.ids i ≡ m.ids i)
      × (t.matrix i j ≡ m.matrix i j)
      × (t.age i ≡ m.age i)
unfolding deserialize
deserialize-payload l m i j small hi hj =
    let n = head_byte l m small in
    let p = positions m.active small in
    (
      n,
      copy-start (λ _. 0) (λ x. payload l m (ids_start + x)) (ids_size (payload l m 0)) i
            (rw n (omega (arith, p)))
          ∙ id_byte l m small i hi,
      read_cell l (payload l m) i j (rw n hi) (rw n hj)
          ∙ ap (λ k. payload l m (matrix_start k + k * i + j)) n
          ∙ matrix_byte l m small i j hi hj,
      l.get-put (m.age i) _ (λ k hk.
          copy-start (λ _. 0) (λ x. payload l m (age_start (payload l m 0) + x))
            (age_size (payload l m 0)) (8 * i + k) (rw n (omega (arith, p)))
          ∙ ap (λ k'. payload l m (age_start k' + (8 * i + k))) n
          ∙ age_byte l m small i k hi hk),
    )
