-- ===== src/Matrix/Tests.antt =====
-- Runs of the matrix operations on a mesh of three nodes, and the theorems at concrete inputs.
use routing_mesh.Prelude.{ℕ, ◌+◌, ◌≤◌, ◌≡◌, ◌↔◌, refl, arith, ◌==◌, if◌then◌else◌}
use routing_mesh.Matrix.{TdmaMatrix, search_id, search_from}
use routing_mesh.Matrix.Sound.{IsSound}
use routing_mesh.Matrix.Quality.{AtLink}
use routing_mesh.Matrix.Dead.{entries, remove_dead_links, live, remove_dead_links-live}
use routing_mesh.Matrix.Wire.{Layout, payload, deserialize, payload_len, copy_rows}
use routing_mesh.Matrix.Wire.RoundTrip.{rows_overflow, deserialize-payload}
use routing_mesh.Matrix.Spanning.Tree.{Joined}
use routing_mesh.Matrix.Spanning.Edges.{TreeJoined, prim_spans}
use routing_mesh.Sync.Tests.{fixed}

-- nodes 1, 2 and 5, which hear one another in a row
abbrev pub three : TdmaMatrix ℕ
three = record {
  my_id = 2;
  active = 3;
  ids = λ i. if i == 0 then 1 else if i == 1 then 2 else 5;
  matrix = λ i j. if i + 1 == j then 1 else if j + 1 == i then 1 else 0;
  quality = λ i j. if i + 1 == j then 100 else if j + 1 == i then 40 else 0;
  creation = λ i. if i == 2 then 10000 else 50000;
  age = λ i. 0;
}

pub three-IsSound : IsSound three
three-IsSound = record {
  rising = λ j k lt below. ground (arith, lt, below);
  positive = λ i lt. ground arith;
  within = λ i lt. ground arith;
  own = (1, omega arith, refl);
  no_loop = λ i lt e. ground (arith, e);
}

three-AtLink : AtLink three 5 1 2
unfolding search_id search_from
three-AtLink = record { mine = refl; other = refl }

remove_dead_links-live_example :
    entries (remove_dead_links fixed 55000 three) ≡ live fixed 55000 2 (entries three)
remove_dead_links-live_example = remove_dead_links-live fixed 55000 three

abbrev pub one_byte : Layout ℕ
one_byte = record {
  put = λ d k. if k == 0 then d else 0;
  get = λ b. b 0;
  get-put = λ d b h. h 0 (omega arith);
}

deserialize-payload_example :
    let t = deserialize one_byte (payload one_byte three) in
    (t.active ≡ 3)
    × (t.ids 2 ≡ three.ids 2)
    × (t.matrix 2 1 ≡ three.matrix 2 1)
    × (t.age 2 ≡ three.age 2)
deserialize-payload_example =
    deserialize-payload one_byte three 2 1 (omega arith) (omega arith) (omega arith)

abbrev sixteen : TdmaMatrix ℕ
sixteen = record three { active = 16 }

rows_overflow_example :
    (at : ℕ) × (payload_len 16 ≤ at)
    × (copy_rows one_byte sixteen (λ _. 0) at ≡ sixteen.matrix 15 15)
rows_overflow_example = rows_overflow one_byte sixteen (λ _. 0) (omega arith) (omega arith)

prim_spans_example : Joined three 2 ↔ TreeJoined three 2
prim_spans_example = prim_spans three (omega arith) 2
