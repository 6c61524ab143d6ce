-- ===== src/Matrix.antt =====
-- src/matrix.c: the adjacency matrix of the mesh, with its operations that hold g_matrix_mutex; the
-- lock makes each of them one step. `Wire`, `Update`, `Dead` and `Spanning` hold the larger ones.
-- Times are of a type `D`, the `double` of the sources.
pub mod Quality
pub mod Remove
pub mod Dead
pub mod Wire
pub mod Spanning
pub mod Update
pub mod Sound
pub mod Tests
use routing_mesh.Prelude.{
  ℕ, zero, suc, ◌+◌, ◌-◌, ◌*◌, Option, none, some, Bool, true, false, ltb, leb, ◌==◌, if◌then◌else◌,
  upd, upd2, move_down, for_up,
}

abbrev pub max_nodes : ℕ
max_nodes = 20

-- LINK_QUALITY_MODE_TEST, the mode of a build that sets none
abbrev pub initial_link_quality : ℕ
initial_link_quality = 100

-- `tdma_matrix_t`
pub record TdmaMatrix (D : Type 0) : Type 0 where
  pub my_id : ℕ
  pub active : ℕ
  pub ids : ℕ → ℕ
  pub matrix : ℕ → ℕ → ℕ
  pub quality : ℕ → ℕ → ℕ
  pub creation : ℕ → D
  pub age : ℕ → D

-- the loop of `searchId` from index `i`, with `n` rounds left; `none` is the -1 of the code
unfoldable pub search_from : (ℕ → ℕ) → ℕ → ℕ → ℕ → Option ℕ
search_from ids zero i id = none
search_from ids (suc n) i id =
    let rest = search_from ids n (i + 1) id in if ids i == id then some i else rest

pub search_id : {D : Type 0} → TdmaMatrix D → ℕ → Option ℕ
search_id m id = search_from m.ids m.active 0 id

-- `removeIdList`
pub remove_id_list : {D : Type 0} → TdmaMatrix D → ℕ → TdmaMatrix D
remove_id_list m p =
    let count = m.active - p - 1 in
    record m {
      ids = move_down m.ids p count;
      age = move_down m.age p count;
      creation = move_down m.creation p count;
      active = m.active - 1;
    }

-- the loop over j that shifts one row
pub shift_row : ℕ → ℕ → (ℕ → ℕ) → ℕ → ℕ
shift_row n p row = for_up (n - 1 - p) p (λ j r. upd r j (r (j + 1))) row

-- the loop over i: each of the first n rows is shifted and its last entry cleared
pub shift_columns : ℕ → ℕ → (ℕ → ℕ → ℕ) → ℕ → ℕ → ℕ
shift_columns n p a = for_up n 0 (λ i b. upd b i (upd (shift_row n p (b i)) (n - 1) 0)) a

-- `removeIdMatrix`: the rows behind p move up, then the columns behind p move left
pub remove_id_matrix : {D : Type 0} → TdmaMatrix D → ℕ → TdmaMatrix D
unfolding shift_columns
remove_id_matrix m p =
    let rows = m.active - p - 1 in
    record m {
      matrix = shift_columns m.active p (move_down m.matrix p rows);
      quality = shift_columns m.active p (move_down m.quality p rows);
    }

-- the two calls that take a node out
abbrev pub remove : {D : Type 0} → TdmaMatrix D → ℕ → TdmaMatrix D
remove m p = remove_id_list (remove_id_matrix m p) p

-- MATRIX_updateLinkQuality, on the entry for a node that was found
pub next_quality : Bool → ℕ → ℕ
next_quality true q = if ltb 40 q then q - 40 else 0
next_quality false q = if ltb q 97 then q + 3 else 100

-- g_myMatrix.link_quality[my_idx][node_idx] = f(…), where both nodes are known
pub change_at : {D : Type 0} → TdmaMatrix D → (ℕ → ℕ) → Option ℕ → Option ℕ → TdmaMatrix D
change_at m f (some i) (some j) = record m { quality = upd2 m.quality i j (f (m.quality i j)) }
change_at m f _ _ = m

pub change_quality : {D : Type 0} → TdmaMatrix D → ℕ → (ℕ → ℕ) → TdmaMatrix D
unfolding change_at
change_quality m node f = change_at m f (search_id m m.my_id) (search_id m node)

pub update_link_quality : {D : Type 0} → TdmaMatrix D → ℕ → Bool → TdmaMatrix D
unfolding next_quality change_quality
update_link_quality m node timeout = change_quality m node (next_quality timeout)

pub set_link_quality : {D : Type 0} → TdmaMatrix D → ℕ → ℕ → TdmaMatrix D
unfolding change_quality
set_link_quality m node q = change_quality m node (λ _. q)
