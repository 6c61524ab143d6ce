-- ===== src/Sockets/Ledger.antt =====
-- Who owns which descriptor, as an array of owners, and the moves on it.
use routing_mesh.Prelude.{
  ℕ, ◌≡◌, ◌≢◌, refl, inl, inr, ◌⊎◌, ◌↔◌, Bool, true, false, ◌||◌, Option, none, some, List, arith,
  upd, has, ℕ_discrete, Bool-cases,
}
use routing_mesh.Sockets.{lose, is_same}

-- Every descriptor that has an owner is open and has no other; one that is open has an owner or is lost.
pub record Owns (h : ℕ → Option ℕ) (opened : ℕ → Bool) (lost : List ℕ) : Type 0 where
  pub open_lem : (o fd : ℕ) → h o ≡ some fd → opened fd ≡ true
  pub apart : (o p fd : ℕ) → h o ≡ some fd → h p ≡ some fd → o ≡ p
  pub owned : (fd : ℕ) → opened fd ≡ true → ((o : ℕ) × (h o ≡ some fd)) ⊎ (has fd lost ≡ true)
  pub lost_open : (fd : ℕ) → has fd lost ≡ true → opened fd ≡ true
  pub lost_apart : (o fd : ℕ) → h o ≡ some fd → has fd lost ≡ false

-- the owner of a descriptor that an assignment to another entry leaves alone
keep_owner :
    (h : ℕ → Option ℕ) (o f : ℕ) (w : Option ℕ) (lost : List ℕ)
    → h o ≢ some f
    → ((x : ℕ) × (h x ≡ some f)) ⊎ (has f lost ≡ true)
    → ((x : ℕ) × (upd h o w x ≡ some f)) ⊎ (has f lost ≡ true)
keep_owner h o f w lost d (inl (x, e)) = inl (x, ground (arith, d, e))
keep_owner h o f w lost d (inr l) = inr l

has-lose : (f : ℕ) (w : Option ℕ) (l : List ℕ) → has f (lose w l) ≡ (is_same w f || has f l)
unfolding lose is_same
has-lose f none l = refl
has-lose f (some x) l = refl

is_same_iff : (w : Option ℕ) (f : ℕ) → (is_same w f ≡ true) ↔ (w ≡ some f)
unfolding is_same
is_same_iff none f = (λ e. ground (arith, e), λ e. ground (arith, e))
is_same_iff (some x) f = (λ e. ground (arith, e), λ e. ground (arith, e))

module _ {h : ℕ → Option ℕ} {opened : ℕ → Bool} {lost : List ℕ} where
  -- an owner without a descriptor gets a new one
  pub gain :
      (o fd : ℕ)
      → Owns h opened lost
      → h o ≡ none
      → opened fd ≡ false
      → Owns (upd h o (some fd)) (upd opened fd true) lost
  gain o fd v e fresh = record {
    open_lem = λ x f r. ground (arith, r, v.open_lem x f);
    apart = λ x y f r s. ground (arith, r, s, v.apart x y f, v.open_lem x f, v.open_lem y f);
    owned = λ f r. elim (ℕ_discrete f fd) [
      | yes same ↦ inl (o, ground (arith, same))
      | no other ↦
          keep_owner h o f _ lost (λ q. ground (arith, e, q)) (v.owned f (ground (arith, r, other)))
    ];
    lost_open = λ f r. ground (arith, r, v.lost_open f);
    lost_apart = λ x f r. elim (Bool-cases (has f lost)) [
      | inl gone ↦ ground (arith, r, v.lost_open f gone, v.lost_apart x f)
      | inr there ↦ there
    ];
  }

  -- an owner closes its descriptor
  pub release :
      (o fd : ℕ)
      → Owns h opened lost
      → h o ≡ some fd
      → Owns (upd h o none) (upd opened fd false) lost
  release o fd v e = record {
    open_lem = λ x f r. ground (arith, r, v.open_lem x f, v.apart o x fd e);
    apart = λ x y f r s. ground (arith, r, s, v.apart x y f);
    owned = λ f r.
        keep_owner h o f _ lost (λ q. ground (arith, r, e, q)) (v.owned f (ground (arith, r)));
    lost_open = λ f r. ground (arith, r, v.lost_open f, v.lost_apart o fd e);
    lost_apart = λ x f r. ground (arith, r, v.lost_apart x f);
  }

  -- an owner passes its descriptor on to an owner that loses its own
  pub pass :
      (o p fd : ℕ)
      → Owns h opened lost
      → h o ≡ some fd
      → o ≢ p
      → Owns (upd (upd h p (some fd)) o none) opened (lose (h p) lost)
  pass o p fd v e d = record {
    open_lem = λ x f r. ground (arith, r, v.open_lem x f, v.open_lem o fd e);
    apart = λ x y f r s. ground (arith, r, s, v.apart x y f, v.apart x o fd, v.apart y o fd);
    owned = λ f r. passed f (v.owned f r);
    lost_open = λ f r.
        ground
          (arith, r, has-lose f (h p) lost, is_same_iff (h p) f, v.lost_open f, v.open_lem p f);
    lost_apart = λ x f r. ground (
      arith,
      r,
      has-lose f (h p) lost,
      is_same_iff (h p) f,
      v.lost_apart x f,
      v.lost_apart o f,
      v.apart x p f,
      v.apart o p f,
    );
  }
    where
      passed :
          (f : ℕ)
          → ((x : ℕ) × (h x ≡ some f)) ⊎ (has f lost ≡ true)
          → ((x : ℕ) × (upd (upd h p (some fd)) o none x ≡ some f))
            ⊎ (has f (lose (h p) lost) ≡ true)
      passed f (inl (x, q)) = elim (ℕ_discrete f fd) [
        | yes same ↦ inl (p, ground (arith, same, d))
        | no other ↦ elim (ℕ_discrete x p) [
          | yes there ↦ inr (ground (arith, has-lose f (h p) lost, is_same_iff (h p) f, q, there))
          | no away ↦ inl (x, ground (arith, away, q, e, other))
        ]
      ]
      passed f (inr l) = inr (ground (arith, has-lose f (h p) lost, l))
