-- ===== src/Matrix/Update/Tests.antt =====
-- `matrix_update` on a mesh of three nodes that learns of a fourth.
use routing_mesh.Prelude.{ℕ, arith, true, ◌≤◌, ◌≡◌, refl, ◌&&◌, some, ◌==◌, if◌then◌else◌, for_up}
use routing_mesh.Matrix.{
  TdmaMatrix, search_id, search_from, update_link_quality, change_quality, change_at,
}
use routing_mesh.Matrix.Tests.{three, three-IsSound}
use routing_mesh.Matrix.Spanning.{linked}
use routing_mesh.Matrix.Update.{
  init, insert, sort, discover, discovered, discover_ids, copy_row, copy_line, copy_mine,
  copy_quality_at, copy_quality, fill_quality, boost, when_found, take_line, fresh, merge_line,
  heard, merged, finished, matrix_update,
}
use routing_mesh.Matrix.Sound.{ListsNodes}
use routing_mesh.Matrix.Update.Sound.{sender_linked}
use routing_mesh.Sync.Tests.{fixed}

-- node 5 sends a matrix with a node 7 that only it hears
abbrev sent : TdmaMatrix ℕ
sent = record {
  my_id = 0;
  active = 2;
  ids = λ i. if i == 0 then 5 else 7;
  matrix = λ i j. if i == 0 && j == 1 then 1 else 0;
  quality = λ _ _. 0;
  creation = λ _. 0;
  age = λ _. 1000;
}

sent-ListsNodes : ListsNodes sent
unfolding ListsNodes
sent-ListsNodes = (omega arith, λ id listed. (ground (arith, listed), ground (arith, listed)))

sender_linked_example :
    let m = (matrix_update fixed 55000 5 three (λ _ _. 0) sent).0 in
    (m.active ≤ 15)
    × ((i : ℕ) × (j : ℕ) × (search_id m 2 ≡ some i)
        × (search_id m 5 ≡ some j)
        × (m.matrix i j ≡ 1)
        × (110 ≤ m.quality i j))
sender_linked_example =
    sender_linked fixed 55000 5 three (λ _ _. 0) sent three-IsSound sent-ListsNodes refl

-- node 1, which is alone, sends its matrix to node 2, which is alone too
abbrev pub alone : TdmaMatrix ℕ
alone = record sent { active = 1; ids = λ i. if i == 0 then 1 else 0; matrix = λ _ _. 0 }

abbrev pub pair : TdmaMatrix ℕ
pair = (matrix_update fixed 55000 1 (init fixed 7 2) (λ _ _. 0) alone).0

pub pair_lem :
    (pair.active ≡ 2)
    × (pair.ids 1 ≡ 2)
    × (linked pair 0 1 ≡ true)
    × (pair.ids 0 ≡ 1)
    × ((matrix_update fixed 55000 1 (init fixed 7 2) (λ _ _. 0) alone).2 ≡ true)
unfolding insert sort discover discovered discover_ids copy_row copy_line copy_mine copy_quality_at
    copy_quality fill_quality boost when_found take_line fresh merge_line heard merged finished
    matrix_update search_id search_from update_link_quality change_quality change_at for_up init
pair_lem = (refl, refl, refl, refl, refl)
