-- ===== src/Matrix/Update/Sound.antt =====
-- `matrix_update` keeps the matrix sound, if the sender is another node and the matrix lists only identifiers from 1 to 15.
use routing_mesh.Prelude.{
  ℕ, zero, suc, ◌+◌, ◌≤◌, ◌<◌, ◌≡◌, ◌≢◌, refl, sym, ap, ◌∙◌, inl, inr, true, false, ◌||◌, some,
  arith, ◌==◌, upd, for_up, for_up_inv, Bool-cases, Option-cases, ℕ_discrete,
}
use routing_mesh.Prelude.Float.{Float}
use routing_mesh.Matrix.{TdmaMatrix, search_id, update_link_quality}
use routing_mesh.Matrix.Spanning.{prim}
use routing_mesh.Matrix.Quality.{search_from-some, search_from-found}
use routing_mesh.Matrix.Sound.{
  IsSound, same_index, own_known, ListsNodes, IsSound-ListsNodes, rising_few, ids-Apart, has-index,
  SameMesh-IsSound, update_link_quality-SameMesh,
}
use routing_mesh.Matrix.Update.{
  init, discover_ids, copy_row, copy_line, copy_mine, copy_quality_at, copy_quality, fill_quality,
  boost, when_found, take_line, fresh, merge_line, heard, blank, merged, finished, matrix_update,
}
use routing_mesh.Matrix.Update.Ids.{known, SameIds, merged-same, update-known, has-slice}
use routing_mesh.Matrix.Update.Heard.{finished-ids, update_links}
use routing_mesh.Matrix.Update.Rising.{update-Rising, Rising-at}

found-here : {D : Type 0} (m : TdmaMatrix D) (id i : ℕ) → search_id m id ≡ some i → m.ids i ≡ id
unfolding search_id
found-here m id i e = (search_from-some m.ids m.active 0 id i e).here

known-found :
    {D : Type 0} (m : TdmaMatrix D) (id : ℕ)
    → known m id ≡ true
    → (i : ℕ) × (search_id m id ≡ some i)
unfolding search_id
known-found m id h =
    let (p, lo, hi, e) = has-index id m.ids 0 m.active h in
    let (k, found, le) =
      search_from-found m.ids m.active 0 id p (omega arith) (omega (arith, hi)) e in
    (k, found)

-- node `me` stands at index p, without a link to itself
record Own {D : Type 0} (me p : ℕ) (t : TdmaMatrix D) : Type 0 where
  here : t.ids p ≡ me
  mine : t.my_id ≡ me
  no_link : t.matrix p p ≡ 0

module _ {D : Type 0} (me p : ℕ) where
  -- row p of `copyLine`, where the copied row has no link to `me`
  copy_row-Own :
      (final from : TdmaMatrix D) (old k x : ℕ) (row : ℕ → ℕ)
      → final.ids p ≡ me
      → ((y : ℕ) → x ≤ y → y < x + k → from.ids y ≡ me → from.matrix old y ≡ 0)
      → row p ≡ 0
      → copy_row final from old k x row p ≡ 0
  unfolding copy_row
  copy_row-Own final from old zero x row h z e = e
  copy_row-Own final from old (suc k) x row h z e =
      elim (Option-cases (search_id final (from.ids x))) [
        | inl gone ↦ rw (copy_row, gone) e
        | inr (r, at) ↦
            rw (copy_row, at)
              (copy_row-Own final from old k (x + 1) (upd row r (from.matrix old x)) h
                (λ y lo hi. z y (omega (arith, lo)) (omega (arith, hi)))
                (written r (found-here final (from.ids x) r at)))
      ]
    where
      written : (r : ℕ) → final.ids r ≡ from.ids x → upd row r (from.matrix old x) p ≡ 0
      written r q = elim (ℕ_discrete p r) [
        | yes same ↦
            ground
              (arith, same, z x (omega arith) (omega arith) (sym q ∙ ap final.ids (sym same) ∙ h))
        | no other ↦ ground (arith, other, e)
      ]

  -- a line that is not this node's
  copy_line-other :
      (t from : TdmaMatrix D) (old line : ℕ)
      → t.ids line ≢ me
      → Own me p t
      → Own me p (copy_line t from old line)
  unfolding copy_line
  copy_line-other t from old line ne o = record {
    here = o.here;
    mine = o.mine;
    no_link =
        let differ : p ≢ line = λ q. ne (ap t.ids (sym q) ∙ o.here) in
        ground (arith, differ, o.no_link);
  }

  -- a line of this node's matrix
  copy_line-mine :
      (t from : TdmaMatrix D) (old line : ℕ)
      → ((y : ℕ) → y < from.active → from.ids y ≡ me → t.ids line ≡ me → from.matrix old y ≡ 0)
      → Own me p t
      → Own me p (copy_line t from old line)
  unfolding copy_line
  copy_line-mine t from old line z o = elim (ℕ_discrete p line) [
    | no differ ↦ record {
      here = o.here;
      mine = o.mine;
      no_link = ground (arith, differ, o.no_link);
    }
    | yes same ↦ record {
      here = o.here;
      mine = o.mine;
      no_link =
          let e : t.ids line ≡ me = ap t.ids (sym same) ∙ o.here in
          let row =
            copy_row-Own t from old from.active 0 (t.matrix line) o.here
              (λ y lo hi q. z y (omega (arith, hi)) q e)
              (ap (λ l. t.matrix l p) (sym same) ∙ o.no_link) in
          ground (arith, same, row);
    }
  ]

  copy_mine-Own :
      (m : TdmaMatrix D) (k i : ℕ) (t : TdmaMatrix D)
      → IsSound m
      → m.my_id ≡ me
      → i + k ≤ m.active
      → Own me p t
      → Own me p (copy_mine m k i t)
  unfolding copy_mine
  copy_mine-Own m zero i t s e le o = o
  copy_mine-Own m (suc k) i t s e le o = elim (Option-cases (search_id t (m.ids i))) [
    | inl gone ↦ rw (copy_mine, gone) o
    | inr (line, at) ↦
        let c =
          copy_line-mine t m i line
            (λ y hi q r.
              let mine : m.ids i ≡ me = sym (found-here t (m.ids i) line at) ∙ r in
              let same = same_index m s y i hi (omega (arith, le)) (q ∙ sym mine) in
              ap (m.matrix i) same ∙ s.no_loop i (omega (arith, le)) (mine ∙ sym e))
            o in
        let u = copy_line t m i line in
        rw (copy_mine, at)
          (copy_mine-Own m k (i + 1)
            (record u {
              creation = upd u.creation line (m.creation i);
              age = upd u.age line (m.age i);
            })
            s e (omega (arith, le)) (record { here = c.here; mine = c.mine; no_link = c.no_link }))
  ]

  copy_quality_at-Own :
      (m : TdmaMatrix D) (i j : ℕ) (t : TdmaMatrix D)
      → Own me p t
      → Own me p (copy_quality_at m i j t)
  unfolding copy_quality_at
  copy_quality_at-Own m i j t o = elim (Option-cases (search_id t (m.ids i))) [
    | inl gone ↦ rw (copy_quality_at, gone) o
    | inr (a, at) ↦ elim (Option-cases (search_id t (m.ids j))) [
      | inl gone ↦ rw (copy_quality_at, at, gone) o
      | inr (b, at') ↦
          rw (copy_quality_at, at, at')
            (record { here = o.here; mine = o.mine; no_link = o.no_link })
    ]
  ]

  copy_quality-Own : (m t : TdmaMatrix D) → Own me p t → Own me p (copy_quality m t)
  unfolding copy_quality
  copy_quality-Own m t o =
      for_up_inv (λ _ u. Own me p u) (λ i u. for_up m.active 0 (copy_quality_at m i) u) m.active 0
        m.active t (omega arith)
        (λ i u _ _ h.
          for_up_inv (λ _ v. Own me p v) (copy_quality_at m i) m.active 0 m.active u (omega arith)
            (λ j v _ _ k. copy_quality_at-Own m i j v k) h)
        o

  -- both indices, where a step changes the qualities or the link to another node
  when_found-Own :
      (m : TdmaMatrix D) (a b : ℕ) (f : ℕ → ℕ → TdmaMatrix D → TdmaMatrix D) (t : TdmaMatrix D)
      → ((i j : ℕ) → m.ids j ≡ b → Own me p t → Own me p (f i j t))
      → Own me p t
      → Own me p (when_found m a b f t)
  unfolding when_found
  when_found-Own m a b f t h o = elim (Option-cases (search_id m a)) [
    | inl gone ↦ rw (when_found, gone) o
    | inr (i, at) ↦ elim (Option-cases (search_id m b)) [
      | inl gone ↦ rw (when_found, at, gone) o
      | inr (j, at') ↦ rw (when_found, at, at') (h i j (found-here m b j at') o)
    ]
  ]

  boost-Own : (i j : ℕ) (t : TdmaMatrix D) → Own me p t → Own me p (boost i j t)
  unfolding boost
  boost-Own i j t o = record { here = o.here; mine = o.mine; no_link = o.no_link }

module _ (F : Float) (now : F.T) (other me p : ℕ) where
  merge_line-Own :
      (m new : TdmaMatrix F.T) (i : ℕ) (t : TdmaMatrix F.T)
      → m.my_id ≡ me
      → Own me p t
      → Own me p (merge_line F now other m new i t)
  unfolding merge_line take_line
  merge_line-Own m new i t e o =
      elim (Bool-cases (new.ids i == m.my_id || F.leb (F.lit 20 1) (new.age i))) [
        | inl skipped ↦ rw (merge_line, skipped) o
        | inr taken ↦ elim (Bool-cases (fresh F now other m new i (search_id m (new.ids i)))) [
          | inr old ↦ rw (merge_line, taken, old) o
          | inl newer ↦ elim (Option-cases (search_id t (new.ids i))) [
            | inl gone ↦ rw (merge_line, taken, newer, gone) o
            | inr (line, at) ↦
                let ne : t.ids line ≢ me = λ q.
                  let z : new.ids i ≡ m.my_id =
                    sym (found-here t (new.ids i) line at) ∙ q ∙ sym e in
                  ground (arith, taken, z) in
                let c =
                  copy_line-other me p (record t { matrix = upd t.matrix line (λ _. 0) }) new i line
                    ne (cleared line o) in
                rw (merge_line, taken, newer, at)
                  (record { here = c.here; mine = c.mine; no_link = c.no_link })
          ]
        ]
      ]
    where
      cleared :
          (line : ℕ) → Own me p t → Own me p (record t { matrix = upd t.matrix line (λ _. 0) })
      cleared line o = record { here = o.here; mine = o.mine; no_link = ground (arith, o.no_link) }

  merged-Own :
      (m new : TdmaMatrix F.T)
      → IsSound m
      → m.my_id ≡ me
      → (discover_ids (blank F now other m) m new).ids p ≡ me
      → Own me p (merged F now other m new)
  unfolding merged discover_ids
  merged-Own m new s e at =
      let start = discover_ids (blank F now other m) m new in
      let copied = copy_mine m m.active 0 start in
      for_up_inv (λ _ t. Own me p t) (merge_line F now other m new) new.active 0 new.active copied
        (omega arith) (λ k t _ _ h. merge_line-Own m new k t e h)
        (copy_mine-Own me p m m.active 0 start s e (omega arith)
          (record { here = at; mine = e; no_link = refl }))

  finished-Own :
      (m new : TdmaMatrix F.T)
      → other ≢ me
      → Own me p (merged F now other m new)
      → Own me p (finished F now other m new)
  unfolding finished heard fill_quality
  finished-Own m new ne o =
      let t = merged F now other m new in
      let noted = when_found-Own me p t m.my_id other (heard F now other) t link o in
      let c = copy_quality-Own me p m (when_found t m.my_id other (heard F now other) t) noted in
      when_found-Own me p t m.my_id other boost _ (λ i j _ h. boost-Own me p i j _ h)
        (record { here = c.here; mine = c.mine; no_link = c.no_link })
    where
      link :
          (i j : ℕ)
          → (merged F now other m new).ids j ≡ other
          → Own me p (merged F now other m new)
          → Own me p (heard F now other i j (merged F now other m new))
      link i j q h = record {
        here = h.here;
        mine = h.mine;
        no_link =
            let differ : p ≢ j =
              λ z. ne (sym q ∙ ap (merged F now other m new).ids (sym z) ∙ h.here) in
            ground (arith, differ, h.no_link);
      }

module _ (F : Float) (now : F.T) (other : ℕ) where
  -- this node's identifier and its missing link to itself, wherever it stands behind a merge
  update-Own :
      (g : TdmaMatrix F.T) (tree : ℕ → ℕ → ℕ) (new : TdmaMatrix F.T) (p : ℕ)
      → IsSound g
      → other ≢ g.my_id
      → (matrix_update F now other g tree new).0.ids p ≡ g.my_id
      → Own g.my_id p (matrix_update F now other g tree new).0
  unfolding matrix_update SameIds
  update-Own g tree new p s ne at =
      let m = update_link_quality g other false in
      let e = update_link_quality-SameMesh g other false in
      let ids = (finished-ids F now other m new).0 ∙ (merged-same F now other m new).0 in
      let sound = SameMesh-IsSound g m e s in
      finished-Own F now other g.my_id p m new ne
        (merged-Own F now other g.my_id p m new sound e.my_id (sym (ap (λ a. a p) ids) ∙ at))

  pub update-IsSound :
      (g : TdmaMatrix F.T) (tree : ℕ → ℕ → ℕ) (new : TdmaMatrix F.T)
      → IsSound g
      → other ≢ g.my_id
      → ListsNodes new
      → IsSound (matrix_update F now other g tree new).0
        × ((matrix_update F now other g tree new).0.my_id ≡ g.my_id)
  unfolding ListsNodes
  update-IsSound g tree new s ne lists =
      let t = (matrix_update F now other g tree new).0 in
      let known_t = update-known F now other g tree new in
      let at = λ (i : ℕ) (lt : i < t.active).
        has-slice t.ids 0 t.active i (omega arith) (omega (arith, lt)) in
      let (p, lo, hi, here) =
        has-index g.my_id t.ids 0 t.active (ground (arith, known_t g.my_id, own_known g s)) in
      let o = update-Own g tree new p s ne here in
      let listed : (id : ℕ) → known t id ≡ true → (1 ≤ id) × (id ≤ 15) = (λ id h.
        elim (Bool-cases (known g id)) [
          | inl before ↦ (IsSound-ListsNodes g s).1 id before
          | inr not_before ↦ lists.1 id (ground (arith, known_t id, h, not_before))
        ]) in
      (
        record {
          rising = λ j k lt below.
              Rising-at t.ids 0 t.active j k (update-Rising F now other g tree new (ids-Apart g s))
                (omega arith) lt (omega (arith, below));
          positive = λ i lt. (listed (t.ids i) (at i lt)).0;
          within = λ i lt. (listed (t.ids i) (at i lt)).1;
          own = (p, omega (arith, hi), here ∙ sym o.mine);
          no_loop = λ i lt e. (update-Own g tree new i s ne (e ∙ o.mine)).no_link;
        },
        o.mine,
      )

  -- the nodes stay within the arrays, whoever the sender is
  pub update-few :
      (g : TdmaMatrix F.T) (tree : ℕ → ℕ → ℕ) (new : TdmaMatrix F.T)
      → IsSound g
      → ListsNodes new
      → (matrix_update F now other g tree new).0.active ≤ 15
  unfolding ListsNodes
  update-few g tree new s lists =
      let t = (matrix_update F now other g tree new).0 in
      let each = λ (i : ℕ) (lt : i < t.active).
        listed t (update-known F now other g tree new) (t.ids i)
          (has-slice t.ids 0 t.active i (omega arith) (omega (arith, lt))) in
      rising_few t
        (λ j k lt below.
          Rising-at t.ids 0 t.active j k (update-Rising F now other g tree new (ids-Apart g s))
            (omega arith) lt (omega (arith, below)))
        (λ i lt. (each i lt).0) (λ i lt. (each i lt).1)
    where
      listed :
          (t : TdmaMatrix F.T)
          → ((id : ℕ) → known t id ≡ (known g id || known new id))
          → (id : ℕ) → known t id ≡ true
          → (1 ≤ id) × (id ≤ 15)
      listed t known_t id h = elim (Bool-cases (known g id)) [
        | inl before ↦ (IsSound-ListsNodes g s).1 id before
        | inr not_before ↦ lists.1 id (ground (arith, known_t id, h, not_before))
      ]

  -- A matrix that lists rising identifiers from 1 to 15, this node's among them, without a link from it to itself, and
  -- a matrix from `other` that lists `other`, at most 15 nodes and only identifiers from 1 to 15: after the merge both
  -- this node and `other` are found in the matrix, which has at most 15 nodes, the link from this node to `other` is
  -- set and its quality is at least 110.
  pub sender_linked :
      (g : TdmaMatrix F.T) (tree : ℕ → ℕ → ℕ) (new : TdmaMatrix F.T)
      → IsSound g
      → ListsNodes new
      → known new other ≡ true
      → let m = (matrix_update F now other g tree new).0 in
        (m.active ≤ 15)
        × ((i : ℕ) × (j : ℕ) × (search_id m g.my_id ≡ some i)
            × (search_id m other ≡ some j)
            × (m.matrix i j ≡ 1)
            × (110 ≤ m.quality i j))
  sender_linked g tree new s lists named =
      let m = (matrix_update F now other g tree new).0 in
      let known_m = update-known F now other g tree new in
      let (i, at_i) = known-found m g.my_id (ground (arith, known_m g.my_id, own_known g s)) in
      let (j, at_j) = known-found m other (ground (arith, known_m other, named)) in
      let (link, quality) = update_links F now other g tree new i j at_i at_j in
      (update-few g tree new s lists, (i, j, at_i, at_j, link, quality))

-- the matrix of a node that is alone
pub init-IsSound :
    (F : Float) (now : F.T) (id : ℕ)
    → 1 ≤ id
    → id ≤ 15
    → IsSound (init F now id) × ((init F now id).my_id ≡ id)
unfolding init
init-IsSound F now id h low = (
  record {
    rising = λ j k lt below. absurd (omega (arith, lt, below));
    positive = λ i lt. ground (arith, lt, h);
    within = λ i lt. ground (arith, lt, low);
    own = (0, omega arith, ground arith);
    no_loop = λ i lt e. refl;
  },
  refl,
)

pub matrix_update-tree :
    (F : Float) (now : F.T) (other : ℕ) (g : TdmaMatrix F.T) (tree : ℕ → ℕ → ℕ)
    (new : TdmaMatrix F.T)
    → let (t, tree', changed) = matrix_update F now other g tree new in tree' ≡ prim t
unfolding matrix_update
matrix_update-tree F now other g tree new = refl
