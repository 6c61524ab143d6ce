-- ===== src/Loss/Window.antt =====
-- The window counts the frames received among the last sixteen.
use routing_mesh.Prelude.{ℕ, zero, suc, ◌+◌, ◌*◌, Bool, false, List, [], ◌∷◌, if◌then◌else◌}
use routing_mesh.Loss.{slide}

abbrev pub bit : Bool → ℕ
bit b = if b then 1 else 0

-- the word of a history whose first entry is the latest
word : List Bool → ℕ
word [] = 0
word (b ∷ h) = bit b + 2 * word h

pow_two : ℕ → ℕ
pow_two zero = 1
pow_two (suc n) = 2 * pow_two n

-- how many frames of a history were received
pub ones : List Bool → ℕ
ones [] = 0
ones (b ∷ h) = bit b + ones h

-- the window after a history
pub window : List Bool → ℕ
window [] = 0
window (b ∷ h) = slide (window h) b

-- one more entry adds the next bit
top : ℕ → List Bool → Bool
top n [] = false
top zero (b ∷ h) = b
top (suc n) (b ∷ h) = top n h
