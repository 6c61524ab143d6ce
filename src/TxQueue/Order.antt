-- ===== src/TxQueue/Order.antt =====
-- The queue stays within its capacity, its counter is right, and it gives the packets in their order.
use routing_mesh.Prelude.{
  ℕ, zero, suc, ◌+◌, ◌-◌, ◌≤◌, ◌≡◌, refl, sym, ap, ◌∙◌, inl, inr, Bool, true, false, ◌||◌, List, [],
  ◌∷◌, ◌++◌, arith, leb, ltb, ◌==◌, map, length, length-append, take, drop, Bool-cases,
}
use mathlib.Core.List.{append_assoc, append-nil}
use routing_mesh.TxQueue.{
  Pkt, TxQueue, create, rest, drop_oldest, push, pop_from, pop, capacity, max_pkt_size,
}

pub record IsValid (q : TxQueue) : Type 0 where
  pub counted : q.count ≡ length q.packets
  pub bounded : q.count ≤ 64

length-rest : (l : List Pkt) → length (rest l) ≡ length l - 1
length-rest [] = omega arith
length-rest (x ∷ l) = omega arith

drop_oldest-IsValid :
    (q : TxQueue) → IsValid q → IsValid (drop_oldest q) × ((drop_oldest q).count ≤ 63)
unfolding drop_oldest
drop_oldest-IsValid q v = elim (Bool-cases (leb capacity q.count)) [
  | inl full ↦ rw full (
    record {
      counted = omega (arith, length-rest q.packets, v.counted);
      bounded = omega (arith, v.bounded);
    },
    omega (arith, v.bounded),
  )
  | inr room ↦ rw room (v, ground arith)
]

appended :
    (q : TxQueue) (p : Pkt)
    → IsValid q
    → q.count ≤ 63
    → IsValid (record { packets = q.packets ++ p ∷ []; count = q.count + 1 })
appended q p v h = record {
  counted = omega (arith, length-append q.packets (p ∷ []), v.counted);
  bounded = omega arith;
}

pub push-IsValid :
    (memory : Bool) (q : TxQueue) (bytes : List ℕ) (len dst_id : ℕ)
    → IsValid q
    → IsValid (push memory q bytes len dst_id)
unfolding push
push-IsValid memory q bytes len dst_id v = elim (Bool-cases (len == 0 || ltb max_pkt_size len)) [
  | inl refused ↦ rw (push, refused) v
  | inr taken ↦ go memory taken
]
  where
    go :
        (b : Bool)
        → (len == 0 || ltb max_pkt_size len) ≡ false
        → IsValid (push b q bytes len dst_id)
    go true e =
        let d = drop_oldest-IsValid q v in rw (push, e) (appended (drop_oldest q) _ (d.0) (d.1))
    go false e = rw (push, e) ((drop_oldest-IsValid q v).0)

pop_from-IsValid :
    (n : ℕ) (l : List Pkt)
    → IsValid (record { packets = l; count = n })
    → IsValid ((pop_from n l).1)
unfolding pop_from
pop_from-IsValid n [] v = v
pop_from-IsValid n (p ∷ ps) v = record {
  counted = omega (arith, v.counted);
  bounded = omega (arith, v.bounded);
}

pub pop-IsValid : (q : TxQueue) → IsValid q → IsValid ((pop q).1)
unfolding pop
pop-IsValid q v = pop_from-IsValid q.count q.packets v

-- the last 64 of a list
pub newest : List Pkt → List Pkt
newest l = drop (length l - 64) l

drop-append : (n : ℕ) (a b : List Pkt) → n ≤ length a → drop n (a ++ b) ≡ drop n a ++ b
drop-append zero a b h = refl
drop-append (suc n) [] b h = absurd (omega arith)
drop-append (suc n) (x ∷ a) b h = drop-append n a b (omega arith)

drop-nil : (n : ℕ) → ◌≡◌ {A = List Pkt} (drop n []) []
drop-nil zero = refl
drop-nil (suc n) = refl

drop-drop : (m n k : ℕ) (a : List Pkt) → n + m ≡ k → drop m (drop n a) ≡ drop k a
drop-drop m zero k a e = ap (λ i. drop i a) (omega arith)
drop-drop m (suc n) zero a e = absurd (omega arith)
drop-drop m (suc n) (suc k) [] e = drop-nil m
drop-drop m (suc n) (suc k) (x ∷ a) e = drop-drop m n k a (omega arith)

length-drop : (n : ℕ) (a : List Pkt) → length (drop n a) ≡ length a - n
length-drop zero a = omega arith
length-drop (suc n) [] = omega arith
length-drop (suc n) (x ∷ a) = omega (arith, length-drop n a)

-- Taking the newest early does not change what is newest later.
newest-append : (a b : List Pkt) → newest (newest a ++ b) ≡ newest (a ++ b)
unfolding newest
newest-append a b =
    let n : ℕ = length a - 64 in
    ap newest (sym (drop-append n a b (omega arith)))
    ∙ drop-drop (length (drop n (a ++ b)) - 64) n (length (a ++ b) - 64) (a ++ b)
        (omega (arith, length-drop n (a ++ b), length-append a b))

-- what the queue keeps of a packet
abbrev pub stored : Pkt → Pkt
stored p = record { bytes = take p.len p.bytes; len = p.len; dst_id = p.dst_id }

unfoldable pub push_all : TxQueue → List Pkt → TxQueue
push_all q [] = q
push_all q (p ∷ ps) = push_all (push true q p.bytes p.len p.dst_id) ps

-- the sizes that a push takes
unfoldable pub Fit : List Pkt → Type 0
Fit [] = Unit
Fit (p ∷ ps) = (1 ≤ p.len) × (p.len ≤ 2048) × Fit ps

pub newest-short : (a : List Pkt) → length a ≤ 64 → newest a ≡ a
unfolding newest
newest-short a h = let e : length a - 64 ≡ 0 = omega arith in ap (λ k. drop k a) e

newest-full : (a : List Pkt) (p : Pkt) → length a ≡ 64 → rest a ++ p ∷ [] ≡ newest (a ++ p ∷ [])
unfolding newest
newest-full [] p h = absurd (omega arith)
newest-full (x ∷ a) p h =
    let e : length (x ∷ a ++ p ∷ []) - 64 ≡ 1 = omega (arith, length-append a (p ∷ [])) in
    sym (ap (λ k. drop k (x ∷ a ++ p ∷ [])) e)

drop_oldest-packets :
    (q : TxQueue) (p : Pkt)
    → IsValid q
    → (drop_oldest q).packets ++ p ∷ [] ≡ newest (q.packets ++ p ∷ [])
unfolding drop_oldest
drop_oldest-packets q p v = elim (Bool-cases (leb capacity q.count)) [
  | inl full ↦
      rw (drop_oldest, full) (newest-full q.packets p (ground (arith, v.counted, v.bounded)))
  | inr room ↦
      rw (drop_oldest, room)
        (sym (
          newest-short (q.packets ++ p ∷ [])
            (ground (arith, length-append q.packets (p ∷ []), v.counted))))
]

pub push-packets :
    (q : TxQueue) (p : Pkt)
    → IsValid q
    → 1 ≤ p.len
    → p.len ≤ 2048
    → (push true q p.bytes p.len p.dst_id).packets ≡ newest (q.packets ++ stored p ∷ [])
unfolding push
push-packets q p v low high =
    let e : (p.len == 0 || ltb max_pkt_size p.len) ≡ false = ground arith in
    rw (push, e) (drop_oldest-packets q (stored p) v)

push_all-packets :
    (q : TxQueue) (ps : List Pkt)
    → IsValid q
    → Fit ps
    → (push_all q ps).packets ≡ newest (q.packets ++ map stored ps)
unfolding push_all Fit
push_all-packets q [] v f = sym (
    newest-short (q.packets ++ [])
      (ground (arith, length-append q.packets [], v.counted, v.bounded))
    ∙ append-nil q.packets)
push_all-packets q (p ∷ ps) v (low, high, f) =
    push_all-packets (push true q p.bytes p.len p.dst_id) ps
      (push-IsValid true q p.bytes p.len p.dst_id v) f
    ∙ ap (λ l. newest (l ++ map stored ps)) (push-packets q p v low high)
    ∙ newest-append (q.packets ++ stored p ∷ []) (map stored ps)
    ∙ ap newest (append_assoc q.packets (stored p ∷ []) (map stored ps))

-- Packets of 1 to 2048 bytes that are pushed onto a new queue, with memory for each: the queue holds the last 64 of
-- them, in their order.
pub push_all-newest :
    (ps : List Pkt) → Fit ps → (push_all create ps).packets ≡ newest (map stored ps)
push_all-newest ps f =
    push_all-packets create ps (record { counted = refl; bounded = omega arith }) f
