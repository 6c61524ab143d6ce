-- ===== src/Routing/Hops.antt =====
-- `build_routing_structure` and `lookup_next_hop`: the lists of neighbours, and the next hop read from them.
use routing_mesh.Prelude.{
  ℕ, ◌+◌, ◌≤◌, ◌<◌, ◌≡◌, ◌≢◌, refl, sym, ap, ◌∙◌, subst, ◌⊎◌, inl, inr, Bool, true, false, not,
  ◌&&◌, Option, none, some, List, [], arith, ltb, ◌==◌, if◌then◌else◌, for_up, for_up_inv,
  Bool-cases, ℕ_discrete, has,
}
use routing_mesh.Routing.{
  View, RouteNode, only, reachable, secondary, primary, via_secondary, via_primary, first_of_two,
  lookup_next_hop,
}
use routing_mesh.Routing.Reach.{Walk, stop, reachable_iff}

-- the identifiers of the first n nodes are positive and differ
pub record Distinct (v : View) : Type 0 where
  pub positive : (i : ℕ) → i < v.n → 1 ≤ v.ids i
  pub apart : (i j : ℕ) → i < v.n → j < v.n → v.ids i ≡ v.ids j → i ≡ j

module _ (v : View) (ids : Distinct v) (me d : ℕ) (dn : d < v.n) (dm : d ≢ me) where
  -- whether the secondary list of node i has the identifier of d, when the nodes below k have been gone through
  pub listed : ℕ → ℕ → Bool
  listed i k = ltb d k && not (d == i) && reachable v.mst v.n me i d

  secondary-listed :
      (i k : ℕ) (l : List ℕ)
      → k < v.n
      → has (v.ids d) l ≡ listed i k
      → has (v.ids d) (secondary v me i k l) ≡ listed i (k + 1)
  unfolding listed secondary
  secondary-listed i k l lt ih = elim (ℕ_discrete k d) [
    | yes same ↦ ground (arith, same, ih, ap v.ids same, ap (reachable v.mst v.n me i) same)
    | no differ ↦ ground (arith, ih, ids.apart k d lt dn)
  ]

  listed_zero : (i : ℕ) → listed i 0 ≡ false
  unfolding listed
  listed_zero i = ground arith

  listed_n : (i : ℕ) → listed i v.n ≡ (not (d == i) && reachable v.mst v.n me i d)
  unfolding listed
  listed_n i = ground arith

  all_listed :
      (i : ℕ)
      → has (v.ids d) (for_up v.n 0 (secondary v me i) [])
        ≡ (not (d == i) && reachable v.mst v.n me i d)
  all_listed i =
      for_up_inv (λ k l. has (v.ids d) l ≡ listed i k) (secondary v me i) v.n 0 v.n [] (omega arith)
        (λ k l low high ih. secondary-listed i k l high ih) (sym (listed_zero i))
      ∙ listed_n i

  -- node i is a neighbour from which d is reached
  pub record Serves (i : ℕ) : Type 0 where
    pub below : i < v.n
    pub edge : v.mst me i ≡ 1
    pub walk : (i ≡ d) ⊎ (reachable v.mst v.n me i d ≡ true)

  -- what an answer of `via_secondary` or `via_primary` says: a neighbour that passes the test
  record Answer (test : ℕ → Bool) (k : ℕ) (r : Option ℕ) : Type 0 where
    sound :
        (h : ℕ)
        → r ≡ some h
        → (i : ℕ) × (i < k) × (v.mst me i ≡ 1) × (test i ≡ true) × (h ≡ v.ids i)
    complete : r ≡ none → (i : ℕ) → i < k → v.mst me i ≡ 1 → test i ≡ false

  Answer-skip :
      (test : ℕ → Bool) (k : ℕ) (r : Option ℕ)
      → Answer test k r
      → (v.mst me k ≡ 1 → test k ≡ false)
      → Answer test (k + 1) r
  Answer-skip test k r a f = record {
    sound = λ h e. let s = a.sound h e in (s.0, omega (arith, s.1), s.2, s.3, s.4);
    complete = λ e i lt m. elim (ℕ_discrete i k) [
      | yes same ↦ ap test same ∙ f (sym (ap (v.mst me) same) ∙ m)
      | no differ ↦ a.complete e i (omega arith) m
    ];
  }

  Answer-take :
      (test : ℕ → Bool) (k : ℕ)
      → v.mst me k ≡ 1
      → test k ≡ true
      → Answer test (k + 1) (some (v.ids k))
  Answer-take test k m t = record {
    sound = λ h e. (k, omega arith, m, t, ground arith);
    complete = λ e. cc;
  }

  -- the two tests
  abbrev by_search : ℕ → Bool
  by_search i = not (d == i) && reachable v.mst v.n me i d

  abbrev by_name : ℕ → Bool
  by_name i = i == d

  first-Answer :
      (test : ℕ → Bool) (k : ℕ) (r : Option ℕ)
      → Answer test k r
      → Answer test (k + 1) (if v.mst me k == 1 then (if test k then some (v.ids k) else r) else r)
  first-Answer test k r a = elim (Bool-cases (v.mst me k == 1)) [
    | inr off ↦ rw off (Answer-skip test k r a (λ m. ground arith))
    | inl on ↦ elim (Bool-cases (test k)) [
      | inr miss ↦ rw (on, miss) (Answer-skip test k r a (λ m. miss))
      | inl hit ↦ rw (on, hit) (Answer-take test k (ground arith) hit)
    ]
  ]

  via_secondary-primary :
      (k : ℕ) (l : List RouteNode)
      → via_secondary (v.ids d) (primary v me k l) ≡ (
          if v.mst me k == 1
          then (if by_search k then some (v.ids k) else via_secondary (v.ids d) l)
          else via_secondary (v.ids d) l)
  unfolding primary via_secondary
  via_secondary-primary k l = ground (arith, all_listed k)

  via_primary-primary :
      (k : ℕ) (l : List RouteNode)
      → k < v.n
      → via_primary (v.ids d) (primary v me k l) ≡ (
          if v.mst me k == 1
          then (if by_name k then some (v.ids k) else via_primary (v.ids d) l)
          else via_primary (v.ids d) l)
  unfolding primary via_primary
  via_primary-primary k l lt = elim (ℕ_discrete k d) [
    | yes same ↦ ground (arith, same, ap v.ids same)
    | no differ ↦ ground (arith, ids.apart k d lt dn)
  ]

  none_yet : (test : ℕ → Bool) → Answer test 0 none
  none_yet test = record { sound = λ h e. cc; complete = λ e i lt. absurd (omega arith) }

  secondary_first : Answer by_search v.n (via_secondary (v.ids d) (for_up v.n 0 (primary v me) []))
  unfolding via_secondary
  secondary_first =
      for_up_inv (λ k l. Answer by_search k (via_secondary (v.ids d) l)) (primary v me) v.n 0 v.n []
        (omega arith)
        (λ k l low high a.
          subst (Answer by_search (k + 1)) (sym (via_secondary-primary k l))
            (first-Answer by_search k _ a))
        (none_yet by_search)

  primary_first : Answer by_name v.n (via_primary (v.ids d) (for_up v.n 0 (primary v me) []))
  unfolding via_primary
  primary_first =
      for_up_inv (λ k l. Answer by_name k (via_primary (v.ids d) l)) (primary v me) v.n 0 v.n []
        (omega arith)
        (λ k l low high a.
          subst (Answer by_name (k + 1)) (sym (via_primary-primary k l high))
            (first-Answer by_name k _ a))
        (none_yet by_name)

  -- what `lookup_next_hop` gives: the identifier of a neighbour from which a walk leads to d without coming to me, or
  -- 0 if there is no such neighbour
  pub data NextHop (h : ℕ) : Type 0 where
    via :
        (i : ℕ) → i < v.n → v.mst me i ≡ 1 → Walk v.mst v.n (only me) d i → h ≡ v.ids i → NextHop h
    nowhere :
        h ≡ 0 → ((i : ℕ) → i < v.n → v.mst me i ≡ 1 → ¬ Walk v.mst v.n (only me) d i) → NextHop h

  other : v.mst me me ≡ 0 → (i : ℕ) → v.mst me i ≡ 1 → i ≢ me
  other loop i e same = absurd (omega (arith, ap (v.mst me) same))

  first-NextHop :
      v.mst me me ≡ 0
      → (a b : Option ℕ) → Answer by_search v.n a
      → Answer by_name v.n b
      → NextHop (first_of_two a b)
  unfolding first_of_two
  first-NextHop loop (some h) b x y =
      let s = x.sound h refl in
      via (s.0) (s.1) (s.2)
        ((reachable_iff v.mst v.n me (s.0) d (s.1) (other loop (s.0) (s.2))).0
          (ground (arith, s.3)))
        (s.4)
  first-NextHop loop none (some h) x y =
      let s = y.sound h refl in
      let e : s.0 ≡ d = ground (arith, s.3) in
      via (s.0) (s.1) (s.2) (subst (Walk v.mst v.n (only me) d) (sym e) stop) (s.4)
  first-NextHop loop none none x y = nowhere refl (λ i lt m w. elim (ℕ_discrete i d) [
    | yes same ↦ absurd (ground (arith, y.complete refl i lt m))
    | no differ ↦
        let r = (reachable_iff v.mst v.n me i d lt (other loop i m)).1 w in
        absurd (ground (arith, x.complete refl i lt m, r))
  ])

  pub lookup_next_hop-NextHop :
      v.mst me me ≡ 0 → NextHop (lookup_next_hop (for_up v.n 0 (primary v me) []) (v.ids d))
  unfolding lookup_next_hop
  lookup_next_hop-NextHop loop = first-NextHop loop _ _ secondary_first primary_first
