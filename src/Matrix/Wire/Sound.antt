-- ===== src/Matrix/Wire/Sound.antt =====
-- `serializeMatrix` keeps the matrix sound.
use routing_mesh.Prelude.{ℕ, refl, subst, ◌≤◌, ◌≡◌, ◌∙◌, Option, none, some}
use routing_mesh.Prelude.Float.{Float}
use routing_mesh.Matrix.{TdmaMatrix, search_id}
use routing_mesh.Matrix.Dead.{remove_dead_links}
use routing_mesh.Matrix.Dead.Sound.{
  remove_dead_links-SameMesh, remove_dead_links-my_id, remove_dead_links-IsSound,
}
use routing_mesh.Matrix.Wire.{Layout, set_creation, refresh_ages, serialize}
use routing_mesh.Matrix.Sound.{IsSound, SameMesh, SameMesh-trans, SameMesh-IsSound}

module _ (F : Float) (now : F.T) where
  refresh_ages-SameMesh : (m : TdmaMatrix F.T) → SameMesh m (refresh_ages F now m)
  unfolding refresh_ages set_creation
  refresh_ages-SameMesh m = at (search_id m m.my_id)
    where
      at :
          (o : Option ℕ)
          → SameMesh m (record (set_creation F now m o) { age = (refresh_ages F now m).age })
      at none = record { ids = refl; active = refl; my_id = refl; matrix = refl }
      at (some i) = record { ids = refl; active = refl; my_id = refl; matrix = refl }

  pub serialize-IsSound :
      (l : Layout F.T) (m : TdmaMatrix F.T) → IsSound m → IsSound (serialize F now l m).0
  unfolding serialize
  serialize-IsSound l m s =
      let t = remove_dead_links F now m in
      SameMesh-IsSound t (refresh_ages F now t) (refresh_ages-SameMesh t)
        (remove_dead_links-IsSound F now m s)

  pub serialize-my_id :
      (l : Layout F.T) (m : TdmaMatrix F.T) → (serialize F now l m).0.my_id ≡ m.my_id
  unfolding serialize
  serialize-my_id l m =
      (refresh_ages-SameMesh (remove_dead_links F now m)).my_id ∙ remove_dead_links-my_id F now m

  pub serialize-SameMesh :
      (l : Layout F.T) (m : TdmaMatrix F.T)
      → m.active ≤ (serialize F now l m).0.active
      → SameMesh m (serialize F now l m).0
  unfolding serialize
  serialize-SameMesh l m h =
      let t = remove_dead_links F now m in
      let e = refresh_ages-SameMesh t in
      SameMesh-trans (remove_dead_links-SameMesh F now m (subst (λ n. m.active ≤ n) e.active h)) e
