-- ===== src/Matrix/Update.antt =====
-- `matrix_update`: a matrix that another node sent is merged into this node's. `new` is that matrix, `other` its
-- sender, `now` the time; the event for the routing comes back as a Bool.
pub mod Ids
pub mod Heard
pub mod Rising
pub mod Sound
pub mod Tests
use routing_mesh.Prelude.{
  ℕ, zero, suc, ◌+◌, Bool, true, false, ◌&&◌, ◌||◌, not, Option, none, some, List, [], ◌∷◌, leb,
  ltb, ◌==◌, if◌then◌else◌, upd, upd2, slice, get_or, for_up,
}
use routing_mesh.Prelude.Int.{pos}
use routing_mesh.Prelude.Float.{Float}
use routing_mesh.Matrix.{
  TdmaMatrix, initial_link_quality, max_nodes, search_from, search_id, update_link_quality,
}
use routing_mesh.Matrix.Spanning.{prim}

-- `compare` and qsort, on the identifiers in use
pub insert : ℕ → List ℕ → List ℕ
insert x [] = x ∷ []
insert x (y ∷ ys) = if leb x y then x ∷ y ∷ ys else y ∷ insert x ys

pub sort : List ℕ → List ℕ
sort [] = []
sort (x ∷ xs) = insert x (sort xs)

module _ {D : Type 0} where
  -- the body of the loop over matrixB of `discoverIds`, with the count of identifiers. The code appends
  -- without a bound; its array has room for MAX_NODES = 20, so this is what it does while there are at most as many
  pub discover : TdmaMatrix D → ℕ → ℕ × (ℕ → ℕ) → ℕ × (ℕ → ℕ)
  discover b i (n, ids) = elim (search_from ids n 0 (b.ids i)) [
    | some x ↦ (n, ids)
    | none ↦ (n + 1, upd ids n (b.ids i))
  ]

  -- the identifiers before the sort
  pub discovered : TdmaMatrix D → TdmaMatrix D → ℕ × (ℕ → ℕ)
  discovered a b =
      for_up b.active 0 (discover b) (a.active, λ x. if ltb x a.active then a.ids x else 0)

  -- `discoverIds`, on a matrix that is all zeros
  pub discover_ids : TdmaMatrix D → TdmaMatrix D → TdmaMatrix D → TdmaMatrix D
  discover_ids final a b =
      let r = discovered a b in
      record final { active = r.0; ids = get_or' (sort (slice r.1 0 r.0)) }
    where
      get_or' : List ℕ → ℕ → ℕ
      get_or' l i = get_or l i 0

  -- the loop of `copyLine` from column x, with k columns left; it breaks at a node that is not found
  pub copy_row : TdmaMatrix D → TdmaMatrix D → ℕ → ℕ → ℕ → (ℕ → ℕ) → ℕ → ℕ
  copy_row final from old zero x row = row
  copy_row final from old (suc k) x row = elim (search_id final (from.ids x)) [
    | none ↦ row
    | some r ↦ copy_row final from old k (x + 1) (upd row r (from.matrix old x))
  ]

  -- `copyLine`
  pub copy_line : TdmaMatrix D → TdmaMatrix D → ℕ → ℕ → TdmaMatrix D
  copy_line final from old line = record final {
    matrix = upd final.matrix line (copy_row final from old from.active 0 (final.matrix line));
  }

  -- the loop that copies this node's rows, from row i, with k rows left
  pub copy_mine : TdmaMatrix D → ℕ → ℕ → TdmaMatrix D → TdmaMatrix D
  copy_mine mine zero i final = final
  copy_mine mine (suc k) i final = elim (search_id final (mine.ids i)) [
    | none ↦ final
    | some line ↦
        let t = copy_line final mine i line in
        copy_mine mine k (i + 1) (record t {
          creation = upd t.creation line (mine.creation i);
          age = upd t.age line (mine.age i);
        })
  ]

  -- the entries of link_quality that both indices are found for
  pub copy_quality_at : TdmaMatrix D → ℕ → ℕ → TdmaMatrix D → TdmaMatrix D
  copy_quality_at mine i j final = elim (search_id final (mine.ids i)) [
    | none ↦ final
    | some p ↦ elim (search_id final (mine.ids j)) [
      | none ↦ final
      | some q ↦ record final { quality = upd2 final.quality p q (mine.quality i j) }
    ]
  ]

  pub copy_quality : TdmaMatrix D → TdmaMatrix D → TdmaMatrix D
  copy_quality mine final =
      for_up mine.active 0 (λ i t. for_up mine.active 0 (copy_quality_at mine i) t) final

  -- links that have no quality yet
  pub fill_quality : TdmaMatrix D → TdmaMatrix D
  fill_quality final = record final {
    quality = λ i j.
        if ltb i final.active
          && ltb j final.active
          && (not (i == j) && final.matrix i j == 1 && final.quality i j == 0)
        then initial_link_quality
        else final.quality i j;
  }

  -- a link that was just heard
  pub boost : ℕ → ℕ → TdmaMatrix D → TdmaMatrix D
  boost me he final = record final {
    quality =
        if ltb (final.quality me he) (initial_link_quality + 10)
        then upd2 final.quality me he (initial_link_quality + 10)
        else final.quality;
  }

  -- both indices of the direct link, for the steps that need both
  pub when_found :
      TdmaMatrix D → ℕ → ℕ → (ℕ → ℕ → TdmaMatrix D → TdmaMatrix D) → TdmaMatrix D → TdmaMatrix D
  when_found final a b f t = elim (search_id final a) [
    | none ↦ t
    | some i ↦ elim (search_id final b) [ none ↦ t | some j ↦ f i j t ]
  ]

-- whether two matrices differ among the first n rows and columns
pub differs_row : ℕ → (ℕ → ℕ) → (ℕ → ℕ) → Bool
differs_row zero a b = false
differs_row (suc k) a b = not (a k == b k) || differs_row k a b

pub differs : ℕ → ℕ → (ℕ → ℕ → ℕ) → (ℕ → ℕ → ℕ) → Bool
differs n zero a b = false
differs n (suc k) a b = differs_row n (a k) (b k) || differs n k a b

module _ (F : Float) (now : F.T) (other : ℕ) where
  open F use {T, sub, ltb, leb, lit, of_int}

  -- the line of `new` is newer, or its node was not known: it replaces the line of `final`
  pub take_line : TdmaMatrix T → TdmaMatrix T → ℕ → ℕ → Option ℕ → TdmaMatrix T → TdmaMatrix T
  take_line mine new i line mypos final =
      let t = copy_line (record final { matrix = upd final.matrix line (λ _. 0) }) new i line in
      let newer = sub now (new.age i) in
      record t {
        creation = upd t.creation line (
            if new.ids i == other
            then newer
            else (elim mypos [ none ↦ newer | some p ↦ mine.creation p ]));
        age = upd t.age line (new.age i);
      }

  -- the guards of the loop over the lines of `new`
  pub fresh : TdmaMatrix T → TdmaMatrix T → ℕ → Option ℕ → Bool
  fresh mine new i none = true
  fresh mine new i (some p) =
      (new.ids i == other || not (leb (lit 20 1) (sub now (mine.creation p))))
      && ltb (mine.creation p) (sub now (new.age i))

  -- the body of that loop; `finalPos` is found, as the identifiers of `new` are among those of `final`
  pub merge_line : TdmaMatrix T → TdmaMatrix T → ℕ → TdmaMatrix T → TdmaMatrix T
  merge_line mine new i final =
      let mypos = search_id mine (new.ids i) in
      if new.ids i == mine.my_id || leb (lit 20 1) (new.age i)
      then final
      else (if fresh mine new i mypos
          then (elim (search_id final (new.ids i)) [
            | none ↦ final
            | some line ↦ take_line mine new i line mypos final
          ])
          else final)

  pub heard : ℕ → ℕ → TdmaMatrix T → TdmaMatrix T
  heard me he final = record final {
    matrix = upd2 final.matrix me he 1;
    creation = upd final.creation me now;
  }

  abbrev blank : TdmaMatrix T → TdmaMatrix T
  blank mine = record {
    my_id = mine.my_id;
    active = 0;
    ids = λ _. 0;
    matrix = λ _ _. 0;
    quality = λ _ _. 0;
    creation = λ _. of_int (pos 0);
    age = λ _. of_int (pos 0);
  }

  -- the matrix before the qualities are set
  pub merged : TdmaMatrix T → TdmaMatrix T → TdmaMatrix T
  merged mine new =
      let final = copy_mine mine mine.active 0 (discover_ids (blank mine) mine new) in
      for_up new.active 0 (merge_line mine new) final

  pub finished : TdmaMatrix T → TdmaMatrix T → TdmaMatrix T
  finished mine new =
      let final = merged mine new in
      when_found final mine.my_id other boost
        (fill_quality (copy_quality mine (when_found final mine.my_id other heard final)))

  -- `matrix_update`: the matrix, the spanning tree, and whether EVENT_TOPOLOGY_CHANGED is pushed
  pub matrix_update : TdmaMatrix T → (ℕ → ℕ → ℕ) → TdmaMatrix T → TdmaMatrix T × (ℕ → ℕ → ℕ) × Bool
  matrix_update g tree new =
      let m = finished (update_link_quality g other false) new in
      let grown = not (m.active == g.active) in
      let both = routing_mesh.Prelude.leb 2 m.active && routing_mesh.Prelude.leb 2 g.active in
      (m, prim m, grown || (both && differs m.active m.active tree (prim m)))

-- `MATRIX_init`
pub init : (F : Float) → F.T → ℕ → TdmaMatrix F.T
init F now my_id = record {
  my_id = my_id;
  active = 1;
  ids = λ i. if i == 0 then my_id else 0;
  matrix = λ _ _. 0;
  quality = λ _ _. 0;
  creation = λ i. if i == 0 then now else F.of_int (pos 0);
  age = λ _. F.of_int (pos 0);
}
