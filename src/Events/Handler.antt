-- ===== src/Events/Handler.antt =====
-- The effect of an event, and the count of the queue.
use routing_mesh.Prelude.{
  ℕ, ◌≡◌, ◌==◌, refl, ap, subst, ◌∙◌, inl, inr, Bool, true, false, ◌&&◌, Option, none, some, List,
  [], ◌∷◌, arith, leb, if◌then◌else◌, Bool-cases, length, length-append, ℕ_discrete,
}
use routing_mesh.Events.{
  EventType, topology_changed, node_timeout, node_joined, Event, EventQueue, push, stopped, event,
  waiting, Popped, pop, pop_from, Node, close_socket, close_peer, finish,
}

abbrev pub is_timeout : EventType → Bool
is_timeout topology_changed = false
is_timeout node_timeout = true
is_timeout node_joined = false

close_socket-at :
    {D : Type 0} (node : Node D) (id : ℕ) (o : Option ℕ) (x : ℕ)
    → node.tcp_sockfd id ≡ o
    → (close_socket node id o).tcp_sockfd x ≡ (if x == id then none else node.tcp_sockfd x)
unfolding close_socket
close_socket-at node id none x e = elim (ℕ_discrete x id) [
  | yes same ↦ ground (arith, ap node.tcp_sockfd same, e)
  | no differ ↦ ground arith
]
close_socket-at node id (some fd) x e = refl

close_socket-routing :
    {D : Type 0} (node : Node D) (id : ℕ) (o : Option ℕ)
    → (close_socket node id o).routing ≡ node.routing
unfolding close_socket
close_socket-routing node id none = refl
close_socket-routing node id (some fd) = refl

close_peer-at :
    {D : Type 0} (node : Node D) (id x : ℕ)
    → ((close_peer node id).routing ≡ node.routing)
      × ((close_peer node id).tcp_sockfd x
          ≡ (if x == id && (leb 1 id && leb id node.num_nodes) then none else node.tcp_sockfd x))
unfolding close_peer
close_peer-at node id x = elim (Bool-cases (leb 1 id && leb id node.num_nodes)) [
  | inl known ↦
      rw (close_peer, known)
        (
          close_socket-routing node id (node.tcp_sockfd id),
          close_socket-at node id (node.tcp_sockfd id) x refl ∙ ground arith,
        )
  | inr unknown ↦ rw (close_peer, unknown) (refl, ground arith)
]

-- the descriptors that have been closed, with that of an entry
abbrev pub with_closed : Bool → Option ℕ → List ℕ → List ℕ
with_closed false o l = l
with_closed true none l = l
with_closed true (some fd) l = fd ∷ l

pub finish-routing :
    {D : Type 0} (node : Node D) (t : EventType) (id : ℕ)
    → (finish node (record { type = t; node_id = id })).routing ≡ node.routing
unfolding finish
finish-routing node topology_changed id = refl
finish-routing node node_timeout id = (close_peer-at node id 0).0
finish-routing node node_joined id = refl

-- `count` is the length of the list
unfoldable pub IsCounted : EventQueue → Type 0
IsCounted q = q.count ≡ length q.events

pub push-IsCounted : (q : EventQueue) (e : Event) → IsCounted q → IsCounted (push q e)
unfolding IsCounted push
push-IsCounted q e h = omega (arith, h, length-append q.events (e ∷ []))

pub pop-IsCounted : (q r : EventQueue) (e : Event) → pop q ≡ event e r → IsCounted q → IsCounted r
unfolding IsCounted pop pop_from
pop-IsCounted q r e = from q.running q.events
  where
    rest_of : Popped → EventQueue
    rest_of stopped = q
    rest_of waiting = q
    rest_of (event x t) = t

    from :
        (b : Bool) (l : List Event)
        → pop_from q b l ≡ event e r
        → q.count ≡ length l
        → r.count ≡ length r.events
    from false l p h = absurd (cc p)
    from true [] p h = absurd (cc p)
    from true (x ∷ l) p h =
        subst (λ (t : EventQueue). t.count ≡ length t.events) (ap rest_of p) (omega (arith, h))
