-- ===== src/Frame/Bytes.antt =====
-- Pieces of a list of bytes, and the length in front of a frame.
use routing_mesh.Prelude.{
  ℕ, zero, suc, ◌+◌, ◌^◌, ◌<◌, ◌≤◌, ◌≡◌, refl, sym, ap, ap₂, ◌∙◌, List, [], ◌∷◌, ◌++◌, arith,
  length, get_or, take, drop, slice, lt→ltb,
}
use routing_mesh.Frame.{put_length, get_length, fill}

pub take-append : (n : ℕ) (a b : List ℕ) → length a ≡ n → take n (a ++ b) ≡ a
take-append zero [] b h = refl
take-append (suc n) [] b h = absurd (omega (arith, h))
take-append zero (x ∷ a) b h = absurd (omega (arith, h))
take-append (suc n) (x ∷ a) b h = ap (λ l. x ∷ l) (take-append n a b (omega (arith, h)))

pub drop-append : (n : ℕ) (a b : List ℕ) → length a ≡ n → drop n (a ++ b) ≡ b
drop-append zero [] b h = refl
drop-append (suc n) [] b h = absurd (omega (arith, h))
drop-append zero (x ∷ a) b h = absurd (omega (arith, h))
drop-append (suc n) (x ∷ a) b h = drop-append n a b (omega (arith, h))

pub get-put_length :
    (n : ℕ) (rest : List ℕ) → n < 2 ^ 32 → get_length (take 4 (put_length n ++ rest)) ≡ n
unfolding get_length put_length
get-put_length n rest h = omega (arith, h)

-- the entry of b at i + k is that of a ++ b at length a + (i + k)
get_or-append : (a b : List ℕ) (i k : ℕ) → length a + i ≡ k → get_or (a ++ b) k 0 ≡ get_or b i 0
get_or-append [] b i k e = ground (arith, e)
get_or-append (x ∷ a) b i zero e = absurd (omega (arith, e))
get_or-append (x ∷ a) b i (suc k) e = get_or-append a b i k (omega (arith, e))

slice-get_or :
    (b c : List ℕ) (f : ℕ → ℕ) (j : ℕ)
    → ((i : ℕ) → i < length b → f (j + i) ≡ get_or (b ++ c) i 0)
    → slice f j (length b) ≡ b
slice-get_or [] c f j h = refl
slice-get_or (x ∷ b) c f j h =
    let first = h 0 (omega arith) in
    ap₂ ◌∷◌ (ap f (omega arith) ∙ first)
      (slice-get_or b c f (j + 1) (λ i lt. ap f (omega arith) ∙ h (suc i) (omega (arith, lt))))

-- m starts at byte i of l
pub At : List ℕ → ℕ → List ℕ → Type 0
At l i m = (k : ℕ) → get_or l (i + k) 0 ≡ get_or m k 0

pub At-append : (a m : List ℕ) (i : ℕ) → length a ≡ i → At (a ++ m) i m
unfolding At
At-append a m i e k = get_or-append a m k (i + k) (omega (arith, e))

pub At-skip : (l a m : List ℕ) (i j : ℕ) → At l i (a ++ m) → i + length a ≡ j → At l j m
unfolding At
At-skip l a m i j h e k =
    ap (λ n. get_or l n 0) (omega (arith, e))
    ∙ h (length a + k)
    ∙ get_or-append a m k (length a + k) (omega arith)

pub At-get_or : (l m : List ℕ) (i k : ℕ) → At l i m → get_or l (i + k) 0 ≡ get_or m k 0
unfolding At
At-get_or l m i k h = h k

pub fill-at : (l : List ℕ) (i : ℕ) (buffer : ℕ → ℕ) → i < length l → fill buffer l i ≡ get_or l i 0
unfolding fill
fill-at l i buffer lt = rw (fill, lt→ltb i (length l) lt) refl

pub At-head :
    (l m : List ℕ) (i x : ℕ) (buffer : ℕ → ℕ) → At l i (x ∷ m) → i < length l → fill buffer l i ≡ x
unfolding At fill
At-head l m i x buffer h lt =
    rw (fill, lt→ltb i (length l) lt) (ap (λ n. get_or l n 0) (omega arith) ∙ h 0)

pub slice-fill :
    (l b c : List ℕ) (i n : ℕ) (buffer : ℕ → ℕ)
    → At l i (b ++ c)
    → length b ≡ n
    → i + n ≤ length l
    → slice (fill buffer l) i n ≡ b
unfolding At fill
slice-fill l b c i n buffer h e lt =
    ap (slice (fill buffer l) i) (sym e)
    ∙ slice-get_or b c (fill buffer l) i
        (λ k lt'. rw (fill, lt→ltb (i + k) (length l) (omega (arith, lt, lt', e))) (h k))
