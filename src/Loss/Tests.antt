-- ===== src/Loss/Tests.antt =====
-- A neighbour that is lost after nine frames.
use routing_mesh.Prelude.{ℕ, ◌==◌, leb, ◌&&◌, if◌then◌else◌, ◌≡◌, Bool, true, false, List, [], ◌∷◌}
use routing_mesh.Matrix.Tests.{three}
use routing_mesh.Loss.{new_link, check_losses, is_received}
use routing_mesh.Loss.Rounds.{looked_at, next_link, check_losses-links}

abbrev history : List Bool
history = false ∷ true ∷ true ∷ true ∷ true ∷ true ∷ true ∷ true ∷ true ∷ true ∷ []

-- node 2 of three: node 1 was heard in the last round, node 3 never
abbrev heard_in : ℕ → ℕ
heard_in x = if x == 1 then 500 else 0

check_losses-links_example : (check_losses 3 heard_in 501 2 ((λ _. new_link), three)).0 1 ≡ (
    if leb 1 1 && leb 1 3 && looked_at heard_in 501 2 1
    then next_link new_link (is_received 500 501)
    else new_link)
check_losses-links_example = check_losses-links heard_in 501 2 3 (λ _. new_link) three 1
