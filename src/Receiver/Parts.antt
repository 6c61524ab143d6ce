-- ===== src/Receiver/Parts.antt =====
-- The steps of the receiving threads: what holds of the node's state between two of them.
use routing_mesh.Prelude.{
  ℕ, ◌≤◌, ◌≡◌, ◌≢◌, refl, ◌∙◌, inl, inr, Bool, true, false, leb, ◌==◌, if◌then◌else◌, length,
  Bool-cases,
}
use routing_mesh.Prelude.Float.{Float}
use routing_mesh.Sync.{record_delay}
use routing_mesh.Sync.Slot.{IsValid}
use routing_mesh.Sync.Gate.{record_delay-bounded, record_delay-IsValid}
use routing_mesh.Matrix.{TdmaMatrix, set_link_quality}
use routing_mesh.Matrix.Sound.{
  IsSound, ListsNodes, SameMesh, SameMesh-IsSound, set_link_quality-SameMesh, same_mesh,
}
use routing_mesh.Matrix.Update.{matrix_update}
use routing_mesh.Matrix.Update.Sound.{update-IsSound, matrix_update-tree}
use routing_mesh.Matrix.Spanning.{prim}
use routing_mesh.Events.{topology_changed, push}
use routing_mesh.Events.Handler.{IsCounted, push-IsCounted}
use routing_mesh.Receiver.{World, heard_at, set_quality, merge}

-- The matrix is this node's and sound, the slot and the count of delays are within their limits, and the events are counted.
pub record WorldSafe {D F : Float} (me : ℕ) (w : World D F) : Type 0 where
  pub matrix : IsSound w.matrix
  pub own_id : w.matrix.my_id ≡ me
  pub slot : IsValid w.sync
  pub delays : length w.sync.delays ≤ 64
  pub events : IsCounted w.events

module _ {D F : Float} (me : ℕ) (w : World D F) (v : WorldSafe me w) where
  pub heard_at-WorldSafe : (round sender : ℕ) → WorldSafe me (heard_at round w sender)
  unfolding heard_at
  heard_at-WorldSafe round sender = elim (Bool-cases (leb sender 20)) [
    | inl low ↦
        rw (heard_at, low)
          (record {
            matrix = v.matrix;
            own_id = v.own_id;
            slot = v.slot;
            delays = v.delays;
            events = v.events;
          })
    | inr high ↦ rw (heard_at, high) v
  ]

  pub record_delay-WorldSafe :
      (d : F.T) (sender : ℕ) → WorldSafe me (record w { sync = record_delay w.sync d sender })
  record_delay-WorldSafe d sender = record {
    matrix = v.matrix;
    own_id = v.own_id;
    slot = record_delay-IsValid w.sync d sender v.slot;
    delays = record_delay-bounded w.sync d sender v.delays;
    events = v.events;
  }

  -- the same nodes and links
  pub mesh-WorldSafe :
      (m : TdmaMatrix D.T) → SameMesh w.matrix m → WorldSafe me (record w { matrix = m })
  mesh-WorldSafe m e = record {
    matrix = SameMesh-IsSound w.matrix m e v.matrix;
    own_id = e.my_id ∙ v.own_id;
    slot = v.slot;
    delays = v.delays;
    events = v.events;
  }

  pub set_quality-WorldSafe : (sender quality : ℕ) → WorldSafe me (set_quality w sender quality)
  unfolding set_quality
  set_quality-WorldSafe sender quality = elim (Bool-cases (quality == 0)) [
    | inl none_known ↦ rw (set_quality, none_known) v
    | inr some_known ↦
        rw (set_quality, some_known)
          (mesh-WorldSafe (set_link_quality w.matrix sender quality)
            (set_link_quality-SameMesh w.matrix sender quality))
  ]

  pub merge-WorldSafe :
      (now : D.T) (sender : ℕ) (new : TdmaMatrix D.T)
      → sender ≢ me
      → ListsNodes new
      → WorldSafe me (merge now w sender new)
  unfolding merge
  merge-WorldSafe now sender new ne lists =
      let (sound, same) =
        update-IsSound D now sender w.matrix w.tree new v.matrix (λ e. ne (e ∙ v.own_id)) lists in
      record {
        matrix = sound;
        own_id = same ∙ v.own_id;
        slot = v.slot;
        delays = v.delays;
        events = pushed ((matrix_update D now sender w.matrix w.tree new).2);
      }
    where
      pushed :
          (b : Bool)
          → IsCounted (
              if b
              then push w.events (record { type = topology_changed; node_id = sender })
              else w.events)
      pushed true = push-IsCounted w.events _ v.events
      pushed false = v.events

-- the nodes, the links and the tree stay
pub record Kept {D F : Float} (w t : World D F) : Type 0 where
  pub mesh : SameMesh w.matrix t.matrix
  pub tree : t.tree ≡ w.tree

module _ {D F : Float} (w : World D F) where
  pub kept : Kept w w
  kept = record { mesh = same_mesh w.matrix; tree = refl }

  pub heard_at-Kept : (round sender : ℕ) → Kept w (heard_at round w sender)
  unfolding heard_at
  heard_at-Kept round sender = elim (Bool-cases (leb sender 20)) [
    | inl low ↦ rw (heard_at, low) (record { mesh = same_mesh w.matrix; tree = refl })
    | inr high ↦ rw (heard_at, high) kept
  ]

  pub set_quality-Kept : (sender quality : ℕ) → Kept w (set_quality w sender quality)
  unfolding set_quality
  set_quality-Kept sender quality = elim (Bool-cases (quality == 0)) [
    | inl none_known ↦ rw (set_quality, none_known) kept
    | inr some_known ↦
        rw (set_quality, some_known)
          (record { mesh = set_link_quality-SameMesh w.matrix sender quality; tree = refl })
  ]

  -- a merge computes the tree again
  pub merge-tree :
      (now : D.T) (sender : ℕ) (new : TdmaMatrix D.T)
      → let t = merge now w sender new in t.tree ≡ prim t.matrix
  unfolding merge
  merge-tree now sender new = matrix_update-tree D now sender w.matrix w.tree new

  pub merge-events :
      (now : D.T) (sender : ℕ) (new : TdmaMatrix D.T)
      → (matrix_update D now sender w.matrix w.tree new).2 ≡ true
      → (merge now w sender new).events
        ≡ push w.events (record { type = topology_changed; node_id = sender })
  unfolding merge
  merge-events now sender new changed = rw changed refl

  pub merge-matrix :
      (now : D.T) (sender : ℕ) (new : TdmaMatrix D.T)
      → (merge now w sender new).matrix ≡ (matrix_update D now sender w.matrix w.tree new).0
  unfolding merge
  merge-matrix now sender new = refl
