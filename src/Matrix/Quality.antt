-- ===== src/Matrix/Quality.antt =====
-- `searchId` and the two operations on a link's quality.
use routing_mesh.Prelude.{
  ℕ, zero, suc, ◌+◌, ◌-◌, ◌*◌, ◌≤◌, ◌<◌, ◌≡◌, ◌≢◌, inl, inr, ap, ◌∙◌, none, some, Bool, true, false,
  arith, ◌==◌, upd2, Bool-cases, Option-cases, ℕ_discrete, dec_lt,
}
use Prim.Native.Nat.{min}
use routing_mesh.Matrix.{
  TdmaMatrix, search_from, search_id, next_quality, change_quality, update_link_quality,
}

-- What the search returns: the first index of the range at which the identifier stands.
pub record IsFirst (ids : ℕ → ℕ) (n i id k : ℕ) : Type 0 where
  pub from : i ≤ k
  pub below : k < i + n
  pub here : ids k ≡ id
  pub first : (j : ℕ) → i ≤ j → j < k → ids j ≢ id

pub search_from-some :
    (ids : ℕ → ℕ) (n i id k : ℕ) → search_from ids n i id ≡ some k → IsFirst ids n i id k
unfolding search_from
search_from-some ids zero i id k e = cc
search_from-some ids (suc n) i id k e = elim (Bool-cases (ids i == id)) [
  | inl hit ↦
      let at : i ≡ k = ground arith in
      record {
        from = omega arith;
        below = omega arith;
        here = ground arith;
        first = λ j a b. absurd (omega arith);
      }
  | inr miss ↦
      let r = search_from-some ids n (i + 1) id k (rw miss at e) in
      record {
        from = omega (arith, r.from);
        below = omega (arith, r.below);
        here = r.here;
        first = λ j a b q. elim (ℕ_discrete i j) [
          | yes same ↦ ground arith
          | no other ↦ r.first j (omega arith) b q
        ];
      }
]

pub search_from-none :
    (ids : ℕ → ℕ) (n i id : ℕ)
    → search_from ids n i id ≡ none
    → (j : ℕ) → i ≤ j
    → j < i + n
    → ids j ≢ id
unfolding search_from
search_from-none ids zero i id e j a b q = absurd (omega arith)
search_from-none ids (suc n) i id e j a b q = elim (ℕ_discrete i j) [
  | yes same ↦ ground arith
  | no other ↦ search_from-none ids n (i + 1) id (ground arith) j (omega arith) (omega arith) q
]

-- The search succeeds wherever the identifier stands, and no later than there.
pub search_from-found :
    (ids : ℕ → ℕ) (n i id j : ℕ)
    → i ≤ j
    → j < i + n
    → ids j ≡ id
    → (k : ℕ) × (search_from ids n i id ≡ some k) × (k ≤ j)
search_from-found ids n i id j a b e = elim (Option-cases (search_from ids n i id)) [
  | inl missing ↦ absurd (search_from-none ids n i id missing j a b e)
  | inr (k, found) ↦ elim (dec_lt j k) [
    | yes early ↦ absurd ((search_from-some ids n i id k found).first j a early e)
    | no late ↦ (k, found, omega arith)
  ]
]

-- The two nodes of a link stand at these indices.
pub record AtLink {D : Type 0} (m : TdmaMatrix D) (node i j : ℕ) : Type 0 where
  pub mine : search_id m m.my_id ≡ some i
  pub other : search_id m node ≡ some j

change_quality-found :
    {D : Type 0} (m : TdmaMatrix D) (node i j : ℕ) (f : ℕ → ℕ)
    → AtLink m node i j
    → change_quality m node f ≡ record m { quality = upd2 m.quality i j (f (m.quality i j)) }
unfolding change_quality
change_quality-found m node i j f l = rw (l.mine, l.other)

update_link_quality-found :
    {D : Type 0} (m : TdmaMatrix D) (node i j : ℕ) (timeout : Bool)
    → AtLink m node i j
    → update_link_quality m node timeout
      ≡ record m { quality = upd2 m.quality i j (next_quality timeout (m.quality i j)) }
unfolding update_link_quality
update_link_quality-found m node i j timeout l =
    change_quality-found m node i j (next_quality timeout) l

-- `n` calls of MATRIX_updateLinkQuality for one node
pub updates : {D : Type 0} → TdmaMatrix D → ℕ → Bool → ℕ → TdmaMatrix D
updates m node timeout zero = m
updates m node timeout (suc n) = updates (update_link_quality m node timeout) node timeout n

abbrev changed : {D : Type 0} → TdmaMatrix D → ℕ → ℕ → ℕ → TdmaMatrix D
changed m i j q = record m { quality = upd2 m.quality i j q }

changed-AtLink :
    {D : Type 0} (m : TdmaMatrix D) (node i j q : ℕ)
    → AtLink m node i j
    → AtLink (changed m i j q) node i j
unfolding search_id
changed-AtLink m node i j q l = record { mine = l.mine; other = l.other }

next_quality-le : (timeout : Bool) (q : ℕ) → q ≤ 100 → next_quality timeout q ≤ 100
unfolding next_quality
next_quality-le true q h = ground arith
next_quality-le false q h = ground arith

updates-quality :
    {D : Type 0} (m : TdmaMatrix D) (node i j n : ℕ) (timeout : Bool) (g : ℕ → ℕ → ℕ)
    → AtLink m node i j
    → ((q : ℕ) → q ≤ 100 → g zero q ≡ q)
    → ((k q : ℕ) → q ≤ 100 → g (suc k) q ≡ g k (next_quality timeout q))
    → m.quality i j ≤ 100
    → (x y : ℕ)
    → (updates m node timeout n).quality x y ≡ upd2 m.quality i j (g n (m.quality i j)) x y
unfolding updates
updates-quality m node i j zero timeout g l z s h x y = ground (arith, z (m.quality i j) h)
updates-quality m node i j (suc n) timeout g l z s h x y =
    let q = next_quality timeout (m.quality i j) in
    let bound : (changed m i j q).quality i j ≤ 100 =
      ground (arith, next_quality-le timeout (m.quality i j) h) in
    ap (λ t. (updates t node timeout n).quality x y)
      (update_link_quality-found m node i j timeout l)
    ∙ updates-quality (changed m i j q) node i j n timeout g (changed-AtLink m node i j q l) z s
        bound x y
    ∙ ground (arith, s n (m.quality i j) h)

-- Beacons in a row restore a link slowly, and lost slots in a row degrade it fast: n calls for one
-- known node add 3 each up to 100, or take 40 each down to 0, at the entry from this node to that
-- one, and change no other entry. The entry is at most 100 to begin with.
pub updates_lem :
    {D : Type 0} (m : TdmaMatrix D) (node i j n : ℕ)
    → AtLink m node i j
    → m.quality i j ≤ 100
    → (x y : ℕ)
    → ((updates m node false n).quality x y
        ≡ upd2 m.quality i j (min 100 (m.quality i j + 3 * n)) x y)
      × ((updates m node true n).quality x y ≡ upd2 m.quality i j (m.quality i j - 40 * n) x y)
unfolding next_quality
updates_lem m node i j n l h x y = (
  updates-quality m node i j n false (λ k q. min 100 (q + 3 * k)) l (λ q le. omega arith)
      (λ k q le. ground arith) h x y,
  updates-quality m node i j n true (λ k q. q - 40 * k) l (λ q le. omega arith)
      (λ k q le. ground arith) h x y,
)
