-- ===== src/Node/Safe.antt =====
-- What holds in every state that the threads of a node can come to.
use routing_mesh.Prelude.{ℕ, ◌≤◌, ◌≡◌, refl, sym, ap, ◌∙◌, subst, [], arith, length}
use routing_mesh.Prelude.Float.{Float}
use routing_mesh.Sync.{Sync}
use routing_mesh.Sync.Slot.{init-delays}
use routing_mesh.Sync.Adjust.{Rounds, adjust_slot-Moved}
use routing_mesh.Matrix.Update.Sound.{init-IsSound}
use routing_mesh.Matrix.Wire.{Layout}
use routing_mesh.Matrix.Wire.Sound.{serialize-IsSound, serialize-my_id}
use routing_mesh.Events.Handler.{IsCounted, pop-IsCounted, finish-routing}
use routing_mesh.Routing.Table.{recompute-my_node_id}
use routing_mesh.Pdr.Estimate.{pdr_update-SameMesh}
use routing_mesh.Loss.Rounds.{check_node-SameMesh}
use routing_mesh.TxQueue.Order
use routing_mesh.Tun.Admitted.{read_packet-IsValid}
use routing_mesh.Transmit.Data.Queue.{data_round-IsValid}
use routing_mesh.Frame.{Processor}
use routing_mesh.Receiver.{World}
use routing_mesh.Receiver.Parts.{
  WorldSafe, heard_at-WorldSafe, record_delay-WorldSafe, mesh-WorldSafe, set_quality-WorldSafe,
  merge-WorldSafe,
}
use routing_mesh.Start.{Boot, Started, started}
use routing_mesh.Start.Accepted.{init_slot}
use routing_mesh.Start.Ran.{routing_manager_create-my_node_id, IsNode, main-IsNode}
use routing_mesh.Node.{
  State, first_state, slot_start, with_world, with_queue, checked, beaconed, counted, recomputed,
  with_peer, Task, idle, taken, viewed, routed, Step, hears, records, rates, merges, counts, writes,
  checks, beacons, sends, adjusts, reads, takes, views, recomputes, finishes, connects, loses,
  Reach, start, next,
}

-- The world is safe, the routing is this node's, and the queue is within its capacity and counted.
pub record IsSafe {D F : Float} (me : ℕ) (s : State D F) : Type 0 where
  pub world : WorldSafe me s.world
  pub routing_id : s.handler.routing.my_node_id ≡ me
  pub queue : Order.IsValid s.sending.queue

module _ {D F : Float} (proc : Processor D.T) (l : Layout D.T) (laws : Rounds D F) (me : ℕ)
    (low : me ≤ 15) where
  -- a step that leaves the routing and the queue
  in_world :
      (s : State D F) (w : World D F) → IsSafe me s → WorldSafe me w → IsSafe me (with_world s w)
  unfolding with_world
  in_world s w v h = record { world = h; routing_id = v.routing_id; queue = v.queue }

  recomputed-IsSafe : (s : State D F) (task : Task) → IsSafe me s → IsSafe me (recomputed s task)
  unfolding recomputed
  recomputed-IsSafe s idle v = v
  recomputed-IsSafe s (taken e) v = v
  recomputed-IsSafe s (routed e) v = v
  recomputed-IsSafe s (viewed e view) v = record {
    world = v.world;
    routing_id = recompute-my_node_id s.handler.routing view ∙ v.routing_id;
    queue = v.queue;
  }

  -- Every step of a thread keeps what holds of the node.
  Step-IsSafe : {s t : State D F} → Step proc l me s t → IsSafe me s → IsSafe me t
  unfolding checked beaconed slot_start counted recomputed with_peer with_queue
  Step-IsSafe {s} (hears round sender e) v =
      subst (IsSafe me) (sym e)
        (in_world s _ v (heard_at-WorldSafe me s.world v.world round sender))
  Step-IsSafe {s} (records d sender e) v =
      subst (IsSafe me) (sym e)
        (in_world s _ v (record_delay-WorldSafe me s.world v.world d sender))
  Step-IsSafe {s} (rates sender q e) v =
      subst (IsSafe me) (sym e) (in_world s _ v (set_quality-WorldSafe me s.world v.world sender q))
  Step-IsSafe {s} (merges now sender new ne lists e) v =
      subst (IsSafe me) (sym e)
        (in_world s _ v (merge-WorldSafe me s.world v.world now sender new ne lists))
  Step-IsSafe {s} (counts src id e) v =
      let w =
        mesh-WorldSafe me s.world v.world _
          (pdr_update-SameMesh F s.world.pdr s.world.matrix src id) in
      subst (IsSafe me) (sym e) (record {
        world = record {
          matrix = w.matrix;
          own_id = w.own_id;
          slot = w.slot;
          delays = w.delays;
          events = w.events;
        };
        routing_id = v.routing_id;
        queue = v.queue;
      })
  Step-IsSafe {s} (writes packet e) v =
      let w = v.world in
      subst (IsSafe me) (sym e) (
        in_world s _ v (record {
          matrix = w.matrix;
          own_id = w.own_id;
          slot = w.slot;
          delays = w.delays;
          events = w.events;
        }))
  Step-IsSafe {s} (checks round k e) v = subst (IsSafe me) (sym e) (record {
    world =
        mesh-WorldSafe me s.world v.world _
          (check_node-SameMesh s.world.last_rx round me k s.links s.world.matrix);
    routing_id = v.routing_id;
    queue = v.queue;
  })
  Step-IsSafe {s} (beacons now e) v =
      let w = v.world in
      subst (IsSafe me) (sym e) (record {
        world = record {
          matrix = serialize-IsSound D now l s.world.matrix w.matrix;
          own_id = serialize-my_id D now l s.world.matrix ∙ w.own_id;
          slot = w.slot;
          delays = w.delays;
          events = w.events;
        };
        routing_id = v.routing_id;
        queue = record { counted = v.queue.counted; bounded = v.queue.bounded };
      })
  Step-IsSafe {s} (sends env slot_end i _ _ _ e) v = subst (IsSafe me) (sym e) (record {
    world = v.world;
    routing_id = v.routing_id;
    queue = data_round-IsValid proc env slot_end me i s.sending v.queue;
  })
  Step-IsSafe {s} (adjusts r small e) v =
      let w = v.world in
      let (m, moved, bounded, still, cleared) =
        adjust_slot-Moved D F laws s.world.sync r w.slot small in
      subst (IsSafe me) (sym e) (
        in_world s _ v (record {
          matrix = w.matrix;
          own_id = w.own_id;
          slot = moved.still_valid;
          delays = omega (arith, ap length cleared);
          events = w.events;
        }))
  Step-IsSafe {s} (reads now_us memory packet e) v = subst (IsSafe me) (sym e) (record {
    world = v.world;
    routing_id = v.routing_id;
    queue = read_packet-IsValid _ memory me s.sending.queue packet v.queue;
  })
  Step-IsSafe {s} (takes ev q _ p e) v =
      let w = v.world in
      subst (IsSafe me) (sym e) (record {
        world = record {
          matrix = w.matrix;
          own_id = w.own_id;
          slot = w.slot;
          delays = w.delays;
          events = pop-IsCounted s.world.events q ev p w.events;
        };
        routing_id = v.routing_id;
        queue = v.queue;
      })
  Step-IsSafe {s} (views ev _ e) v =
      subst (IsSafe me) (sym e)
        (record { world = v.world; routing_id = v.routing_id; queue = v.queue })
  Step-IsSafe {s} (recomputes e) v = subst (IsSafe me) (sym e) (recomputed-IsSafe s s.task v)
  Step-IsSafe {s} (finishes ev _ e) v = subst (IsSafe me) (sym e) (record {
    world = v.world;
    routing_id =
        ap (λ rm. rm.my_node_id) (finish-routing s.handler ev.type ev.node_id) ∙ v.routing_id;
    queue = v.queue;
  })
  Step-IsSafe {s} (connects i fd _ _ e) v =
      subst (IsSafe me) (sym e)
        (record { world = v.world; routing_id = v.routing_id; queue = v.queue })
  Step-IsSafe {s} (loses i _ _ e) v =
      subst (IsSafe me) (sym e)
        (record { world = v.world; routing_id = v.routing_id; queue = v.queue })

  -- the node that `main` has started
  first-IsSafe :
      (s0 : Sync F.T) (now_us : ℕ) (now : D.T) (boot : Boot) (n : Started D F)
      → s0.delays ≡ []
      → IsNode D F s0 now_us now boot n
      → n.node_id ≡ me
      → IsSafe me (first_state n)
  unfolding first_state started IsCounted
  first-IsSafe s0 now_us now boot n empty is e =
      subst (λ (x : Started D F). x.node_id ≡ me → IsSafe me (first_state x)) (sym is.fields)
        (λ same. record {
          world = record {
            matrix = (init-IsSound D now is.id is.id_low (omega (arith, low, same))).0;
            own_id = (init-IsSound D now is.id is.id_low (omega (arith, low, same))).1 ∙ same;
            slot = (init_slot s0 is.id is.num now_us is.id_low is.id_high is.num_low is.num_high).0;
            delays =
                omega (arith, ap length (init-delays s0 is.id is.num _ now_us), ap length empty);
            events = refl;
          };
          routing_id = routing_manager_create-my_node_id _ is.id is.num ∙ same;
          queue = record { counted = refl; bounded = omega arith };
        })
        e

  -- In every state that a node with an identifier up to 15 can come to from `main`, whatever the kernel answers, in
  -- any interleaving of its threads, and whatever the other nodes send, whose matrices come under another number than
  -- this node's and list at most 15 nodes, with identifiers from 1 to 15: the identifiers in its matrix rise and are
  -- from 1 to 15, so they are at most 15, its own is among them, and it has no link to itself; its slot begins in the
  -- frame and ends a width later; at most 64 delays are kept; the events are counted; the queue has at most 64 packets
  -- and counts them; and the routing is this node's.
  pub Reach-IsSafe : {s : State D F} → Reach proc l me s → IsSafe me s
  Reach-IsSafe (start s0 now_us now boot a b opened n empty runs_n e) =
      first-IsSafe s0 now_us now boot n empty
        (main-IsNode D F s0 now_us now boot 3 a b opened n runs_n) e
  Reach-IsSafe (next r step) = Step-IsSafe step (Reach-IsSafe r)
