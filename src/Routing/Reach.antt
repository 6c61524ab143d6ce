-- ===== src/Routing/Reach.antt =====
-- `is_reachable_via_mst`: what its search over the tree finds.
use routing_mesh.Prelude.{
  ℕ, zero, suc, ◌+◌, ◌≤◌, ◌<◌, ◌≡◌, ◌≢◌, refl, sym, ap, ◌∙◌, subst, inl, inr, ◌↔◌, Bool, true,
  false, not, ◌&&◌, arith, ◌==◌, upd, Bool-cases, ℕ_discrete, outside, outside-upd, outside-le,
  outside_mono,
}
use routing_mesh.Routing.{scan, search_mst, only, reachable}

-- a walk along the tree from a node to `t`, whose nodes after the first are not in `avoid`
pub data Walk (mst : ℕ → ℕ → ℕ) (n : ℕ) (avoid : ℕ → Bool) (t : ℕ) : ℕ → Type 0 where
  stop : Walk mst n avoid t t
  hop :
      {i j : ℕ}
      → mst i j ≢ 0
      → j < n
      → avoid j ≡ false
      → Walk mst n avoid t j
      → Walk mst n avoid t i

module _ (mst : ℕ → ℕ → ℕ) (n t : ℕ) where
  Walk-fewer :
      {a b : ℕ → Bool} {i : ℕ}
      → ((x : ℕ) → a x ≡ true → b x ≡ true)
      → Walk mst n b t i
      → Walk mst n a t i
  Walk-fewer sub stop = stop
  Walk-fewer {a} {b} sub (hop {i} {j} e h o w) = hop e h (ground (arith, sub j)) (Walk-fewer sub w)

  -- what a search that did not find `t` has marked
  record Explored (a b : ℕ → Bool) : Type 0 where
    grows : (x : ℕ) → a x ≡ true → b x ≡ true
    other : (x : ℕ) → a x ≡ false → b x ≡ true → x ≢ t
    closed : (x j : ℕ) → a x ≡ false → b x ≡ true → j < n → mst x j ≢ 0 → b j ≡ true

  Explored-refl : (a : ℕ → Bool) → Explored a a
  Explored-refl a = record { grows = λ x h. h; other = λ x p q. cc; closed = λ x j p q. cc }

  Explored-trans : {a b c : ℕ → Bool} → Explored a b → Explored b c → Explored a c
  Explored-trans {a} {b} {c} p q = record {
    grows = λ x h. q.grows x (p.grows x h);
    other = λ x out h. elim (Bool-cases (b x)) [ inl y ↦ p.other x out y | inr y ↦ q.other x y h ];
    closed = λ x j out h lt e. elim (Bool-cases (b x)) [
      | inl y ↦ q.grows j (p.closed x j out y lt e)
      | inr y ↦ q.closed x j y h lt e
    ];
  }

  data Outcome (a : ℕ → Bool) (i : ℕ) (r : Bool × (ℕ → Bool)) : Type 0 where
    found : r.0 ≡ true → Walk mst n a t i → Outcome a i r
    missed : r.0 ≡ false → Explored a r.1 → r.1 i ≡ true → Outcome a i r

  -- the outcome of the loop over the neighbours from k on
  data Scanned (a : ℕ → Bool) (row : ℕ → ℕ) (k : ℕ) (r : Bool × (ℕ → Bool)) : Type 0 where
    found :
        (j : ℕ)
        → r.0 ≡ true
        → row j ≢ 0
        → j < n
        → a j ≡ false
        → Walk mst n a t j
        → Scanned a row k r
    missed :
        r.0 ≡ false
        → Explored a r.1
        → ((j : ℕ) → k ≤ j → j < n → row j ≢ 0 → r.1 j ≡ true)
        → Scanned a row k r

  Scanned-later :
      {a b : ℕ → Bool} {row : ℕ → ℕ} {k : ℕ} {r : Bool × (ℕ → Bool)}
      → Explored a b
      → (row k ≢ 0 → b k ≡ true)
      → Scanned b row (k + 1) r
      → Scanned a row k r
  Scanned-later {a} {b} x now (found j e l h o w) =
      found j e l h (ground (arith, x.grows j)) (Walk-fewer (x.grows) w)
  Scanned-later {a} {b} {row} {k} {r} x now (missed e y all) =
      missed e (Explored-trans x y) (λ j low high l. elim (ℕ_discrete j k) [
        | yes same ↦
            subst (λ i. r.1 i ≡ true) (sym same) (y.grows k (now (λ z. l (ap row same ∙ z))))
        | no differ ↦ all j (omega arith) high l
      ])

  module _ (call : ℕ → (ℕ → Bool) → Bool × (ℕ → Bool)) (row : ℕ → ℕ) (F : ℕ)
      (works : (j : ℕ) (b : ℕ → Bool)
        → j < n
        → b j ≡ false
        → outside b n ≤ F
        → Outcome b j (call j b)) where
    scan-skip :
        (k i : ℕ) (a : ℕ → Bool)
        → (not (row i == 0) && not (a i)) ≡ false
        → scan call row (suc k) i a ≡ scan call row k (i + 1) a
    unfolding scan
    scan-skip k i a h = ground arith

    scan-hit :
        (k i : ℕ) (a : ℕ → Bool)
        → (not (row i == 0) && not (a i)) ≡ true
        → (call i a).0 ≡ true
        → scan call row (suc k) i a ≡ call i a
    unfolding scan
    scan-hit k i a h e = ground arith

    scan-on :
        (k i : ℕ) (a : ℕ → Bool)
        → (not (row i == 0) && not (a i)) ≡ true
        → (call i a).0 ≡ false
        → scan call row (suc k) i a ≡ scan call row k (i + 1) ((call i a).1)
    unfolding scan
    scan-on k i a h e = ground arith

    scan-Scanned :
        (k i : ℕ) (a : ℕ → Bool)
        → i + k ≡ n
        → outside a n ≤ F
        → Scanned a row i (scan call row k i a)
    unfolding scan
    scan-Scanned zero i a e h = missed refl (Explored-refl a) (λ j low high l. absurd (omega arith))
    scan-Scanned (suc k) i a e h = elim (Bool-cases (not (row i == 0) && not (a i))) [
      | inr shut ↦ subst (Scanned a row i) (sym (scan-skip k i a shut)) (
          Scanned-later (Explored-refl a) (λ l. ground arith)
            (scan-Scanned k (i + 1) a (omega arith) h))
      | inl go ↦ elim (works i a (omega arith) (ground arith) h) [
        | found b w ↦
            subst (Scanned a row i) (sym (scan-hit k i a go b))
              (found i b (λ z. ground arith) (omega arith) (ground arith) w)
        | missed b x m ↦ subst (Scanned a row i) (sym (scan-on k i a go b)) (
            Scanned-later x (λ _. m)
              (scan-Scanned k (i + 1) ((call i a).1) (omega arith)
                (omega (arith, outside_mono a ((call i a).1) n (x.grows)))))
      ]
    ]

  search-here :
      (fuel i : ℕ) (a : ℕ → Bool) → (i == t) ≡ true → search_mst mst n t (suc fuel) i a ≡ (true, a)
  unfolding search_mst
  search-here fuel i a h = rw (search_mst, h)

  search-on :
      (fuel i : ℕ) (a : ℕ → Bool)
      → (i == t) ≡ false
      → search_mst mst n t (suc fuel) i a
        ≡ scan (search_mst mst n t fuel) (mst i) n 0 (upd a i true)
  unfolding search_mst
  search-on fuel i a h = rw (search_mst, h)

  Explored-mark :
      (a : ℕ → Bool) (i : ℕ) (b : ℕ → Bool)
      → i ≢ t
      → Explored (upd a i true) b
      → ((j : ℕ) → j < n → mst i j ≢ 0 → b j ≡ true)
      → Explored a b
  Explored-mark a i b ne x all = record {
    grows = λ y h. x.grows y (ground arith);
    other = λ y p q. elim (ℕ_discrete y i) [
      | yes same ↦ λ e. ne (sym same ∙ e)
      | no differ ↦ x.other y (ground arith) q
    ];
    closed = λ y j p q lt e. elim (ℕ_discrete y i) [
      | yes same ↦ all j lt (λ z. e (ap (λ u. mst u j) same ∙ z))
      | no differ ↦ x.closed y j (ground arith) q lt e
    ];
  }

  Walk-mark : {a : ℕ → Bool} (i : ℕ) {k : ℕ} → Walk mst n (upd a i true) t k → Walk mst n a t k
  Walk-mark i w = Walk-fewer (λ x h. ground arith) w

  search_mst-Outcome :
      (fuel i : ℕ) (a : ℕ → Bool)
      → i < n
      → a i ≡ false
      → outside a n ≤ fuel
      → Outcome a i (search_mst mst n t fuel i a)
  search_mst-Outcome zero i a lt o h = absurd (omega (arith, outside-upd a i n lt o))
  search_mst-Outcome (suc fuel) i a lt o h = elim (Bool-cases (i == t)) [
    | inl same ↦
        let e : i ≡ t = ground arith in
        subst (Outcome a i) (sym (search-here fuel i a same))
          (found refl (subst (λ z. Walk mst n a t z) (sym e) stop))
    | inr differ ↦ subst (Outcome a i) (sym (search-on fuel i a differ)) (
        finish (λ z. ground arith)
          (scan-Scanned (search_mst mst n t fuel) (mst i) fuel
            (λ j b l p q. search_mst-Outcome fuel j b l p q) n 0 (upd a i true) (omega arith)
            (omega (arith, outside-upd a i n lt o))))
  ]
    where
      finish : {r : Bool × (ℕ → Bool)} → i ≢ t → Scanned (upd a i true) (mst i) 0 r → Outcome a i r
      finish ne (found j e l b f w) = found e (hop l b (ground arith) (Walk-mark i w))
      finish ne (missed e x all) =
          missed e (Explored-mark a i _ ne x (λ j q l. all j (omega arith) q l))
            (x.grows i (ground arith))

  -- A walk that avoids what was marked before ends among what a failed search has marked.
  Walk-Explored :
      {a b : ℕ → Bool} {i : ℕ}
      → Explored a b
      → a i ≡ false
      → b i ≡ true
      → Walk mst n a t i
      → b t ≡ true × a t ≡ false
  Walk-Explored x p q stop = (q, p)
  Walk-Explored {a} {b} {i} x p q (hop {j = j} e h o w) = Walk-Explored x o (x.closed i j p q h e) w

-- For nodes i and me, i ≠ me, below n: the search from i for j, with me marked as visited, ends and gives true exactly if
-- a walk along the tree leads from i to j and does not come to me.
pub reachable_iff :
    (mst : ℕ → ℕ → ℕ) (n me i j : ℕ)
    → i < n
    → i ≢ me
    → (reachable mst n me i j ≡ true) ↔ Walk mst n (only me) j i
unfolding reachable
reachable_iff mst n me i j lt ne =
    elim (search_mst-Outcome mst n j (n + 1) i (only me) lt (ground arith)
      (omega (arith, outside-le (only me) n))) [
        | found e w ↦ (λ _. w, λ _. e)
        | missed e x m ↦ (
          λ h. cc,
          λ w.
              let p = Walk-Explored mst n j x (ground arith) m w in
              absurd (x.other j (p.1) (p.0) refl),
        )
      ]
