-- ===== src/Events/Linked/Tests.antt =====
-- A queue with two events, at the addresses 8 and 5.
use routing_mesh.Prelude.{refl, true, none, some, [], ◌∷◌, ◌==◌, if◌then◌else◌}
use routing_mesh.Events.{Event, EventQueue, topology_changed, node_timeout, push, pop}
use routing_mesh.Events.Linked.{
  LinkedQueue, linked_push, linked_pop, nil, cons, last, Represents, SameAnswer, linked_refines,
}

abbrev first : Event
first = record { type = topology_changed; node_id = 3 }

abbrev second : Event
second = record { type = node_timeout; node_id = 4 }

abbrev linked : LinkedQueue
linked = record {
  heap = λ x.
      if x == 8
      then record { content = first; next = some 5 }
      else record { content = second; next = none };
  head = some 8;
  tail = some 5;
  count = 2;
  running = true;
}

abbrev listed : EventQueue
listed = record { events = first ∷ second ∷ []; count = 2; running = true }

linked-Represents : Represents linked listed
unfolding last
linked-Represents = record {
  addresses = 8 ∷ 5 ∷ [];
  chain = cons refl refl refl (cons refl refl refl nil);
  tail = refl;
  count = refl;
  running = refl;
}

linked_refines_example :
    Represents (linked_push linked 6 first) (push listed first)
    × SameAnswer (linked_pop linked) (pop listed)
unfolding linked-Represents
linked_refines_example = linked_refines linked listed 6 first linked-Represents refl
