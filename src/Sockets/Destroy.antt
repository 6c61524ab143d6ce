-- ===== src/Sockets/Destroy.antt =====
-- What `node_destroy` closes.
use routing_mesh.Prelude.{
  ℕ, zero, suc, ◌+◌, ◌≤◌, ◌<◌, ◌≡◌, refl, sym, ap, ◌∙◌, inl, inr, Option, none, some, arith, has,
  ℕ_discrete, dec_lt, Bool-cases, for_up_inv,
}
use routing_mesh.Sockets.{Sockets, close, close_entry, destroy, Reach}
use routing_mesh.Sockets.Owners.{
  holds, IsValid, Reach-IsValid, close_entry_effect, close_entry-IsValid,
}

-- the state in the loop of `node_destroy`, before entry k
record Closing (n : ℕ) (s : Sockets) (k : ℕ) (t : Sockets) : Type 0 where
  valid : IsValid n t
  accepted_none : t.accepted ≡ none
  connected_none : t.connected ≡ none
  same_lost : t.overwritten ≡ s.overwritten
  empty : (i : ℕ) → i < k → t.tcp_sockfd i ≡ none

close_entry_rest :
    (t : Sockets) (i : ℕ) (o : Option ℕ)
    → ((close_entry t i o).connected ≡ t.connected)
      × ((close_entry t i o).overwritten ≡ t.overwritten)
      × ((j : ℕ) → t.tcp_sockfd j ≡ none → (close_entry t i o).tcp_sockfd j ≡ none)
unfolding close_entry close
close_entry_rest t i none = (refl, refl, λ j e. e)
close_entry_rest t i (some fd) = elim (Bool-cases (t.opened fd)) [
  | inl e ↦ rw e (refl, refl, λ j h. ground (arith, h))
  | inr e ↦ rw e (refl, refl, λ j h. ground (arith, h))
]

close_one :
    (n : ℕ) (s : Sockets) (k : ℕ) (t : Sockets)
    → Closing n s k t
    → Closing n s (k + 1) (close_entry t k (t.tcp_sockfd k))
close_one n s k t c =
    let (kept, free) = close_entry_effect t k (t.tcp_sockfd k) refl in
    let (conn, lost, others) = close_entry_rest t k (t.tcp_sockfd k) in
    record {
      valid = close_entry-IsValid n t k (t.tcp_sockfd k) c.valid refl;
      accepted_none = kept ∙ c.accepted_none;
      connected_none = conn ∙ c.connected_none;
      same_lost = lost ∙ c.same_lost;
      empty = λ i lt. elim (ℕ_discrete i k) [
        | yes same ↦ rw same free
        | no other ↦ others i (c.empty i (omega (arith, other)))
      ];
    }

nobody_holds : (n : ℕ) (s t : Sockets) → n ≤ 20 → Closing n s 21 t → (o : ℕ) → holds t o ≡ none
unfolding holds
nobody_holds n s t h c zero = c.accepted_none
nobody_holds n s t h c (suc zero) = c.connected_none
nobody_holds n s t h c (suc (suc i)) = elim (dec_lt i 21) [
  | yes low ↦ c.empty i low
  | no high ↦ c.valid.unused i (omega (arith, high))
]

only_lost :
    (n : ℕ) (s t : Sockets)
    → n ≤ 20
    → Closing n s 21 t
    → (fd : ℕ) → t.opened fd ≡ has fd s.overwritten
only_lost n s t h c fd = elim (Bool-cases (t.opened fd)) [
  | inl live ↦ elim (c.valid.owns.owned fd live) [
    | inl (o, q) ↦ absurd (ground (arith, q, nobody_holds n s t h c o))
    | inr lost ↦ live ∙ sym lost ∙ ap (has fd) c.same_lost
  ]
  | inr closed ↦ elim (Bool-cases (has fd t.overwritten)) [
    | inl lost ↦ c.valid.owns.lost_open fd lost ∙ sym lost ∙ ap (has fd) c.same_lost
    | inr kept ↦ closed ∙ sym kept ∙ ap (has fd) c.same_lost
  ]
]

-- With at most 20 nodes, once no thread holds a descriptor: node_destroy closes every descriptor but those that an
-- assignment has lost, and none twice.
pub destroy_closes :
    (n : ℕ) (ips : ℕ → ℕ) (s : Sockets)
    → n ≤ 20
    → Reach n ips s
    → s.accepted ≡ none
    → s.connected ≡ none
    → ((destroy s).bad_closes ≡ 0) × ((fd : ℕ) → (destroy s).opened fd ≡ has fd s.overwritten)
unfolding destroy
destroy_closes n ips s h r a b =
    let c : Closing n s 21 (destroy s) =
      for_up_inv (Closing n s) _ 21 0 21 s refl (λ k t _ _ c. close_one n s k t c)
        (record {
          valid = Reach-IsValid n ips s r;
          accepted_none = a;
          connected_none = b;
          same_lost = refl;
          empty = λ i lt. absurd (omega (arith, lt));
        }) in
    (c.valid.closed_once, only_lost n s (destroy s) h c)
