-- ===== src/Matrix/Remove.antt =====
-- `removeIdMatrix` and `removeIdList`: a node leaves the matrix.
use routing_mesh.Prelude.{
  ℕ, ◌+◌, ◌-◌, ◌<◌, ◌≡◌, fun_ext, arith, ltb, leb, ◌&&◌, if◌then◌else◌, upd, move_down, for_up_inv,
}
use routing_mesh.Matrix.{
  TdmaMatrix, shift_row, shift_columns, remove_id_list, remove_id_matrix, remove,
}

shift_row_lem :
    (n p : ℕ) (row : ℕ → ℕ)
    → p < n
    → (x : ℕ) → shift_row n p row x ≡ (if leb p x && ltb x (n - 1) then row (x + 1) else row x)
unfolding shift_row
shift_row_lem n p row h =
    for_up_inv
      (λ k (r : ℕ → ℕ). (x : ℕ) → r x ≡ (if leb p x && ltb x k then row (x + 1) else row x))
      (λ j r. upd r j (r (j + 1))) (n - 1 - p) p (n - 1) row (omega arith)
      (λ k t a b ih x. ground (arith, ih x, ih (x + 1))) (λ x. ground arith)

shift_columns_lem :
    (n p : ℕ) (a : ℕ → ℕ → ℕ) (i x : ℕ)
    → shift_columns n p a i x ≡ (if ltb i n then upd (shift_row n p (a i)) (n - 1) 0 x else a i x)
unfolding shift_columns
shift_columns_lem n p a i x =
    for_up_inv
      (λ k (b : ℕ → ℕ → ℕ).
        (y z : ℕ) → b y z ≡ (if ltb y k then upd (shift_row n p (a y)) (n - 1) 0 z else a y z))
      (λ i b. upd b i (upd (shift_row n p (b i)) (n - 1) 0)) n 0 n a (omega arith)
      (λ k t low high ih y z.
        let same : t k ≡ a k = fun_ext λ w. ground (arith, ih k w) in
        rw same (ground (arith, ih y z)))
      (λ y z. ground arith) i x

-- the index before the removal of what stands at i behind it
abbrev pub skip : ℕ → ℕ → ℕ
skip p i = if ltb i p then i else i + 1

removed_entry :
    (n p : ℕ) (a : ℕ → ℕ → ℕ) (i j : ℕ)
    → p < n
    → i < n - 1
    → j < n - 1
    → shift_columns n p (move_down a p (n - p - 1)) i j ≡ a (skip p i) (skip p j)
removed_entry n p a i j h hi hj = ground (
  arith,
  shift_columns_lem n p (move_down a p (n - p - 1)) i j,
  shift_row_lem n p (move_down a p (n - p - 1) i) h j,
)

-- Removing the node at an index p in use deletes row p and column p of both matrices and entry p of
-- the three lists: every other entry is found where it was, one further up or left behind p.
pub remove_lem :
    {D : Type 0} (m : TdmaMatrix D) (p i j : ℕ)
    → p < m.active
    → i < m.active - 1
    → j < m.active - 1
    → let m' = remove m p in
      (m'.active ≡ m.active - 1)
      × (m'.ids i ≡ m.ids (skip p i))
      × (m'.age i ≡ m.age (skip p i))
      × (m'.creation i ≡ m.creation (skip p i))
      × (m'.matrix i j ≡ m.matrix (skip p i) (skip p j))
      × (m'.quality i j ≡ m.quality (skip p i) (skip p j))
unfolding remove_id_list remove_id_matrix
remove_lem m p i j h hi hj = ground (
  arith,
  removed_entry m.active p m.matrix i j h hi hj,
  removed_entry m.active p m.quality i j h hi hj,
)
