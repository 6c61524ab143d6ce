-- ===== src/Sockets.antt =====
-- node.c and event_handler.c: the TCP sockets of the peers, which six threads open, share in tcp_sockfd and close. What
-- a thread does between a lock and its unlock is one step. The kernel hands out descriptors; it is seen by which of them
-- are open. A descriptor is a number, `none` is -1. An address is a number too, 0 for the empty string.
pub mod Ledger
pub mod Owners
pub mod Destroy
mod Tests
use routing_mesh.Prelude.{
  ℕ, zero, suc, ◌+◌, ◌≤◌, ◌≡◌, Bool, true, false, ◌&&◌, Option, none, some, List, [], ◌∷◌, leb,
  ◌==◌, if◌then◌else◌, upd, for_up,
}

-- tcp_sockfd, with what `tcp_accept_loop` and `tcp_keepalive_loop` hold in a local `fd` (and the keepalive's index i),
-- the kernel's open descriptors and the number of close calls on a descriptor that is not open. `overwritten` is the
-- record of the descriptors that an assignment to tcp_sockfd has lost.
pub record Sockets : Type 0 where
  pub tcp_sockfd : ℕ → Option ℕ
  pub accepted : Option ℕ
  pub connected : Option ℕ
  pub peer : ℕ
  pub opened : ℕ → Bool
  pub bad_closes : ℕ
  pub overwritten : List ℕ

-- tcp_sockfd of `node_init`
abbrev pub init : Sockets
init = record {
  tcp_sockfd = λ _. none;
  accepted = none;
  connected = none;
  peer = 0;
  opened = λ _. false;
  bad_closes = 0;
  overwritten = [];
}

-- close(fd)
pub close : Sockets → ℕ → Sockets
close s fd =
    if s.opened fd
    then record s { opened = upd s.opened fd false }
    else record s { bad_closes = suc s.bad_closes }

-- the close of an entry that is not -1
pub close_entry : Sockets → ℕ → Option ℕ → Sockets
close_entry s i none = s
close_entry s i (some fd) =
    let s' = close s fd in record s' { tcp_sockfd = upd s'.tcp_sockfd i none }

-- if (tcp_sockfd[i] == fd) close
pub is_same : Option ℕ → ℕ → Bool
is_same none fd = false
is_same (some x) fd = x == fd

pub close_same : Sockets → ℕ → ℕ → Sockets
close_same s i fd = if is_same (s.tcp_sockfd i) fd then close_entry s i (s.tcp_sockfd i) else s

-- the event handler on a peer that timed out
pub close_timeout : ℕ → Sockets → ℕ → Sockets
close_timeout n s i = if leb 1 i && leb i n then close_entry s i (s.tcp_sockfd i) else s

-- the search for the peer of an address, from index i with k left
pub find_peer : (ℕ → ℕ) → ℕ → ℕ → ℕ → Option ℕ
find_peer ips ip zero i = none
find_peer ips ip (suc k) i = if ips i == ip then some i else find_peer ips ip k (i + 1)

-- accept gives a descriptor
abbrev pub accept : Sockets → ℕ → Sockets
accept s fd = record s { accepted = some fd; opened = upd s.opened fd true }

-- `tcp_accept_loop` behind accept: an unknown peer is refused, a known one takes the place of the entry
pub place : Sockets → ℕ → Option ℕ → Sockets
place s fd none = let s' = close s fd in record s' { accepted = none }
place s fd (some i) =
    let s' = close_entry s i (s.tcp_sockfd i) in
    record s' { tcp_sockfd = upd s'.tcp_sockfd i (some fd); accepted = none }

-- `tcp_connect_peer` gives a descriptor for peer i
abbrev pub connect : Sockets → ℕ → ℕ → Sockets
connect s i fd = record s { connected = some fd; peer = i; opened = upd s.opened fd true }

-- tcp_sockfd[i] = fd loses what was there
pub lose : Option ℕ → List ℕ → List ℕ
lose none l = l
lose (some fd) l = fd ∷ l

-- `tcp_keepalive_loop` behind the connection
pub install : Sockets → ℕ → Sockets
install s fd = record s {
  tcp_sockfd = upd s.tcp_sockfd s.peer (some fd);
  connected = none;
  overwritten = lose (s.tcp_sockfd s.peer) s.overwritten;
}

-- the loop of `node_destroy`
pub destroy : Sockets → Sockets
destroy s = for_up 21 0 (λ i t. close_entry t i (t.tcp_sockfd i)) s

-- The steps of the threads, for n nodes with the addresses `ips`. The kernel gives descriptors that are not open.
-- `closes` is `tcp_rx_peer_loop`, `tcp_keepalive_loop` or `tx_loop` on a connection that failed: the descriptor is what
-- the thread has read from the entry at any time before.
pub data Step (n : ℕ) (ips : ℕ → ℕ) (s : Sockets) (t : Sockets) : Type 0 where
  accepts : (fd : ℕ) → s.accepted ≡ none → s.opened fd ≡ false → t ≡ accept s fd → Step n ips s t
  places :
      (fd ip : ℕ) → s.accepted ≡ some fd → t ≡ place s fd (find_peer ips ip n 1) → Step n ips s t
  connects :
      (i fd : ℕ)
      → i ≤ n
      → s.connected ≡ none
      → s.opened fd ≡ false
      → t ≡ connect s i fd
      → Step n ips s t
  installs : (fd : ℕ) → s.connected ≡ some fd → t ≡ install s fd → Step n ips s t
  closes : (i fd : ℕ) → t ≡ close_same s i fd → Step n ips s t
  times_out : (i : ℕ) → t ≡ close_timeout n s i → Step n ips s t

-- what the threads reach, in any interleaving
pub data Reach (n : ℕ) (ips : ℕ → ℕ) : Sockets → Type 0 where
  start : Reach n ips init
  next : {s t : Sockets} → Reach n ips s → Step n ips s t → Reach n ips t
