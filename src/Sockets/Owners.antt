-- ===== src/Sockets/Owners.antt =====
-- What every interleaving of the threads keeps.
use routing_mesh.Prelude.{
  ℕ, zero, suc, ◌+◌, ◌≤◌, ◌<◌, ◌≡◌, refl, ap, ◌∙◌, subst, fun_ext, inl, inr, ◌⊎◌, true, false,
  Option, none, some, arith, ◌&&◌, leb, upd, has, Bool-cases,
}
use routing_mesh.Sockets.{
  Sockets, init, close, close_entry, is_same, close_same, close_timeout, find_peer, accept, place,
  connect, lose, install, Step, accepts, places, connects, installs, closes, times_out, Reach,
  start, next,
}
use routing_mesh.Sockets.Ledger.{Owns, gain, release, pass}

-- the owners: the two locals, then the entries
unfoldable pub holds : Sockets → ℕ → Option ℕ
holds s zero = s.accepted
holds s (suc zero) = s.connected
holds s (suc (suc i)) = s.tcp_sockfd i

pub record IsValid (n : ℕ) (s : Sockets) : Type 0 where
  pub owns : Owns (holds s) s.opened s.overwritten
  pub closed_once : s.bad_closes ≡ 0
  pub peers : s.peer ≤ n
  pub unused : (i : ℕ) → n < i → s.tcp_sockfd i ≡ none

holds-accept : (s : Sockets) (fd : ℕ) (x : ℕ) → upd (holds s) 0 (some fd) x ≡ holds (accept s fd) x
unfolding holds
holds-accept s fd zero = refl
holds-accept s fd (suc zero) = refl
holds-accept s fd (suc (suc i)) = ground arith

holds-connect :
    (s : Sockets) (i fd : ℕ) (x : ℕ) → upd (holds s) 1 (some fd) x ≡ holds (connect s i fd) x
unfolding holds
holds-connect s i fd zero = refl
holds-connect s i fd (suc zero) = refl
holds-connect s i fd (suc (suc j)) = ground arith

accept-IsValid :
    (n : ℕ) (s : Sockets) (fd : ℕ)
    → IsValid n s
    → s.accepted ≡ none
    → s.opened fd ≡ false
    → IsValid n (accept s fd)
unfolding holds
accept-IsValid n s fd v e fresh = record {
  owns =
      subst (λ h. Owns h (upd s.opened fd true) s.overwritten) (fun_ext (holds-accept s fd))
        (gain 0 fd v.owns e fresh);
  closed_once = v.closed_once;
  peers = v.peers;
  unused = v.unused;
}

connect-IsValid :
    (n : ℕ) (s : Sockets) (i fd : ℕ)
    → IsValid n s
    → i ≤ n
    → s.connected ≡ none
    → s.opened fd ≡ false
    → IsValid n (connect s i fd)
unfolding holds
connect-IsValid n s i fd v h e fresh = record {
  owns =
      subst (λ h. Owns h (upd s.opened fd true) s.overwritten) (fun_ext (holds-connect s i fd))
        (gain 1 fd v.owns e fresh);
  closed_once = v.closed_once;
  peers = h;
  unused = v.unused;
}

-- closing an open descriptor
close-live :
    (s : Sockets) (fd : ℕ)
    → s.opened fd ≡ true
    → close s fd ≡ record s { opened = upd s.opened fd false }
unfolding close
close-live s fd e = rw e refl

holds-clear :
    (s : Sockets) (i x : ℕ)
    → upd (holds s) (suc (suc i)) none x
      ≡ holds (record s { tcp_sockfd = upd s.tcp_sockfd i none }) x
unfolding holds
holds-clear s i zero = ground arith
holds-clear s i (suc zero) = ground arith
holds-clear s i (suc (suc j)) = ground arith

clear-IsValid :
    (n : ℕ) (s : Sockets) (i fd : ℕ)
    → IsValid n s
    → s.tcp_sockfd i ≡ some fd
    → IsValid n (record s { tcp_sockfd = upd s.tcp_sockfd i none; opened = upd s.opened fd false })
unfolding holds
clear-IsValid n s i fd v e = record {
  owns =
      subst (λ h. Owns h (upd s.opened fd false) s.overwritten) (fun_ext (holds-clear s i))
        (release (suc (suc i)) fd v.owns e);
  closed_once = v.closed_once;
  peers = v.peers;
  unused = λ j lt. ground (arith, v.unused j lt);
}

pub close_entry-IsValid :
    (n : ℕ) (s : Sockets) (i : ℕ) (o : Option ℕ)
    → IsValid n s
    → s.tcp_sockfd i ≡ o
    → IsValid n (close_entry s i o)
unfolding close_entry holds
close_entry-IsValid n s i none v e = v
close_entry-IsValid n s i (some fd) v e =
    rw (close-live s fd (v.owns.open_lem (suc (suc i)) fd e)) (clear-IsValid n s i fd v e)

close_same-IsValid : (n : ℕ) (s : Sockets) (i fd : ℕ) → IsValid n s → IsValid n (close_same s i fd)
unfolding close_same
close_same-IsValid n s i fd v = elim (Bool-cases (is_same (s.tcp_sockfd i) fd)) [
  | inl e ↦ rw e (close_entry-IsValid n s i (s.tcp_sockfd i) v refl)
  | inr e ↦ rw e v
]

close_timeout-IsValid :
    (n : ℕ) (s : Sockets) (i : ℕ) → IsValid n s → IsValid n (close_timeout n s i)
unfolding close_timeout
close_timeout-IsValid n s i v = elim (Bool-cases (leb 1 i && leb i n)) [
  | inl e ↦ rw e (close_entry-IsValid n s i (s.tcp_sockfd i) v refl)
  | inr e ↦ rw e v
]

-- the accept thread's descriptor is closed
refuse-IsValid :
    (n : ℕ) (s : Sockets) (fd : ℕ)
    → IsValid n s
    → s.accepted ≡ some fd
    → IsValid n (place s fd none)
unfolding place holds
refuse-IsValid n s fd v e = rw (close-live s fd (v.owns.open_lem 0 fd e)) (record {
  owns =
      subst (λ h. Owns h (upd s.opened fd false) s.overwritten) (fun_ext go)
        (release 0 fd v.owns e);
  closed_once = v.closed_once;
  peers = v.peers;
  unused = v.unused;
})
  where
    go :
        (x : ℕ)
        → upd (holds s) 0 none x
          ≡ holds (record s { accepted = none; opened = upd s.opened fd false }) x
    go zero = refl
    go (suc zero) = refl
    go (suc (suc j)) = ground arith

-- it goes into an entry that is empty
move-IsValid :
    (n : ℕ) (s : Sockets) (fd i : ℕ)
    → IsValid n s
    → i ≤ n
    → s.accepted ≡ some fd
    → s.tcp_sockfd i ≡ none
    → IsValid n (record s { tcp_sockfd = upd s.tcp_sockfd i (some fd); accepted = none })
unfolding holds lose
move-IsValid n s fd i v h e free = record {
  owns =
      subst (λ h. Owns h s.opened s.overwritten) (fun_ext go)
        (subst (λ l. Owns (upd (upd (holds s) (suc (suc i)) (some fd)) 0 none) s.opened l)
          (ap (λ o. lose o s.overwritten) free)
          (pass 0 (suc (suc i)) fd v.owns e (λ c. omega (arith, c))));
  closed_once = v.closed_once;
  peers = v.peers;
  unused = λ j lt. ground (arith, v.unused j lt);
}
  where
    go :
        (x : ℕ)
        → upd (upd (holds s) (suc (suc i)) (some fd)) 0 none x
          ≡ holds (record s { tcp_sockfd = upd s.tcp_sockfd i (some fd); accepted = none }) x
    go zero = ground arith
    go (suc zero) = ground arith
    go (suc (suc j)) = ground arith

find_peer_bound : (ips : ℕ → ℕ) (ip k i j : ℕ) → find_peer ips ip k i ≡ some j → j < i + k
unfolding find_peer
find_peer_bound ips ip zero i j e = ground (arith, e)
find_peer_bound ips ip (suc k) i j e = ground (arith, e, find_peer_bound ips ip k (i + 1) j)

pub close_entry_effect :
    (s : Sockets) (i : ℕ) (o : Option ℕ)
    → s.tcp_sockfd i ≡ o
    → ((close_entry s i o).accepted ≡ s.accepted) × ((close_entry s i o).tcp_sockfd i ≡ none)
unfolding close_entry close
close_entry_effect s i none e = (refl, e)
close_entry_effect s i (some fd) e = elim (Bool-cases (s.opened fd)) [
  | inl t ↦ rw t (refl, ground arith)
  | inr t ↦ rw t (refl, ground arith)
]

place-IsValid :
    (n : ℕ) (s : Sockets) (fd : ℕ) (o : Option ℕ)
    → IsValid n s
    → s.accepted ≡ some fd
    → ((i : ℕ) → o ≡ some i → i ≤ n)
    → IsValid n (place s fd o)
unfolding place
place-IsValid n s fd none v e h = refuse-IsValid n s fd v e
place-IsValid n s fd (some i) v e h =
    let (kept, free) = close_entry_effect s i (s.tcp_sockfd i) refl in
    move-IsValid n (close_entry s i (s.tcp_sockfd i)) fd i
      (close_entry-IsValid n s i (s.tcp_sockfd i) v refl) (h i refl) (kept ∙ e) free

install-IsValid :
    (n : ℕ) (s : Sockets) (fd : ℕ) → IsValid n s → s.connected ≡ some fd → IsValid n (install s fd)
unfolding install holds
install-IsValid n s fd v e = record {
  owns =
      subst (λ h. Owns h s.opened (lose (s.tcp_sockfd s.peer) s.overwritten)) (fun_ext go)
        (pass 1 (suc (suc s.peer)) fd v.owns e (λ c. omega (arith, c)));
  closed_once = v.closed_once;
  peers = v.peers;
  unused = λ j lt. ground (arith, v.unused j lt, v.peers);
}
  where
    go :
        (x : ℕ) → upd (upd (holds s) (suc (suc s.peer)) (some fd)) 1 none x ≡ holds (install s fd) x
    go zero = ground arith
    go (suc zero) = ground arith
    go (suc (suc j)) = ground arith

holds-init : (o : ℕ) → holds init o ≡ none
unfolding holds
holds-init zero = refl
holds-init (suc zero) = refl
holds-init (suc (suc i)) = refl

init-IsValid : (n : ℕ) → IsValid n init
unfolding holds
init-IsValid n = record {
  owns = record {
    open_lem = λ o fd e. ground (arith, e, holds-init o);
    apart = λ o p fd e f. ground (arith, e, holds-init o);
    owned = λ fd e. ground (arith, e);
    lost_open = λ fd e. ground (arith, e);
    lost_apart = λ o fd e. refl;
  };
  closed_once = refl;
  peers = omega arith;
  unused = λ i lt. refl;
}

Step-IsValid : (n : ℕ) (ips : ℕ → ℕ) (s t : Sockets) → Step n ips s t → IsValid n s → IsValid n t
Step-IsValid n ips s t (accepts fd e fresh q) v = rw q (accept-IsValid n s fd v e fresh)
Step-IsValid n ips s t (places fd ip e q) v = rw q (
    place-IsValid n s fd (find_peer ips ip n 1) v e
      (λ i r. omega (arith, find_peer_bound ips ip n 1 i r)))
Step-IsValid n ips s t (connects i fd h e fresh q) v = rw q (connect-IsValid n s i fd v h e fresh)
Step-IsValid n ips s t (installs fd e q) v = rw q (install-IsValid n s fd v e)
Step-IsValid n ips s t (closes i fd q) v = rw q (close_same-IsValid n s i fd v)
Step-IsValid n ips s t (times_out i q) v = rw q (close_timeout-IsValid n s i v)

pub Reach-IsValid : (n : ℕ) (ips : ℕ → ℕ) (s : Sockets) → Reach n ips s → IsValid n s
Reach-IsValid n ips s start = init-IsValid n
Reach-IsValid n ips s (next {s = r} reached step) =
    Step-IsValid n ips r s step (Reach-IsValid n ips r reached)

-- In every state that an interleaving of the threads reaches: no thread has closed a descriptor that was not open, an
-- entry of tcp_sockfd is an open descriptor that stands in no other entry, and a descriptor that is open is in an entry,
-- held by the accept or the keepalive thread, or lost by an assignment over it.
pub sockets_owned :
    (n : ℕ) (ips : ℕ → ℕ) (s : Sockets)
    → Reach n ips s
    → (s.bad_closes ≡ 0)
      × ((i fd : ℕ) → s.tcp_sockfd i ≡ some fd → s.opened fd ≡ true)
      × ((i j fd : ℕ) → s.tcp_sockfd i ≡ some fd → s.tcp_sockfd j ≡ some fd → i ≡ j)
      × ((fd : ℕ)
          → s.opened fd ≡ true
          → ((o : ℕ) × (holds s o ≡ some fd)) ⊎ (has fd s.overwritten ≡ true))
unfolding holds
sockets_owned n ips s r =
    let v = Reach-IsValid n ips s r in
    (
      v.closed_once,
      λ i fd e. v.owns.open_lem (suc (suc i)) fd e,
      λ i j fd e f. omega (arith, v.owns.apart (suc (suc i)) (suc (suc j)) fd e f),
      v.owns.owned,
    )
