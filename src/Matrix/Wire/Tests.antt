-- ===== src/Matrix/Wire/Tests.antt =====
-- What a receiver reads from a payload that lists node 7.
use routing_mesh.Prelude.{ℕ, ◌≡◌, arith, ◌==◌, if◌then◌else◌}
use routing_mesh.Matrix.Tests.{one_byte}
use routing_mesh.Matrix.Sound.{ListsNodes}
use routing_mesh.Matrix.Wire.{deserialize, copy}

-- one node, 7
abbrev pub payload_of_seven : ℕ → ℕ
payload_of_seven k = if k == 0 then 1 else if k == 1 then 7 else 0

pub seven-ListsNodes : (f : ℕ → ℕ) → f 0 ≡ 1 → f 1 ≡ 7 → ListsNodes (deserialize one_byte f)
unfolding deserialize copy ListsNodes
seven-ListsNodes f h e =
    rw h (omega arith, λ id listed. (ground (arith, e, listed), ground (arith, e, listed)))
