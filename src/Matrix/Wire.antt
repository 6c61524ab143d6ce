-- ===== src/Matrix/Wire.antt =====
-- `serializeMatrix` and `deserializeMatrix`: the payload of a MATRIX packet. A buffer is a function
-- of the byte's index. How the processor lays out a `double` is a parameter.
pub mod RoundTrip
pub mod Sound
pub mod Tests
use routing_mesh.Prelude.{
  ℕ, zero, suc, ◌+◌, ◌-◌, ◌*◌, ◌/◌, ◌%◌, ◌≤◌, ◌<◌, ◌≡◌, refl, ◌∙◌, ap, Bool, ltb, leb, ◌==◌, ◌&&◌,
  if◌then◌else◌, fun_ext, arith, for_up, for_up_inv, Option, none, some, upd,
}
use routing_mesh.Prelude.Int.{pos}
use routing_mesh.Prelude.Float.{Float}
use routing_mesh.Matrix.{TdmaMatrix, search_id}
use routing_mesh.Matrix.Dead.{remove_dead_links, remove_dead_links-active}

-- The eight bytes of a double, and the double that eight bytes make.
pub record Layout (D : Type 0) : Type 0 where
  pub put : D → ℕ → ℕ
  pub get : (ℕ → ℕ) → D
  pub get-put : (d : D) (b : ℕ → ℕ) → ((k : ℕ) → k < 8 → b k ≡ put d k) → get b ≡ d

-- memcpy(buf + at, src, n)
pub copy : (ℕ → ℕ) → ℕ → (ℕ → ℕ) → ℕ → ℕ → ℕ
copy buf at src n x = if leb at x && ltb x (at + n) then src (x - at) else buf x

-- `parameterSize`, in uint16_t
abbrev pub ids_size : ℕ → ℕ
ids_size n = n % 65536

abbrev pub age_size : ℕ → ℕ
age_size n = (8 * (n + 1)) % 65536

-- `parameterPos`, in uint8_t
abbrev pub ids_start : ℕ
ids_start = 1

abbrev pub matrix_start : ℕ → ℕ
matrix_start n = (1 + n + 1) % 256

abbrev pub age_start : ℕ → ℕ
age_start n = (1 + 1 + n + n * n + 1) % 256

-- `payloadpkt_len`
abbrev pub payload_len : ℕ → ℕ
payload_len n = (age_start n + age_size n) % 65536

module _ {D : Type 0} (l : Layout D) where
  -- the bytes of an array of doubles
  pub double_bytes : (ℕ → D) → ℕ → ℕ
  double_bytes a x = l.put (a (x / 8)) (x % 8)

  -- the rows, one after the other
  pub copy_rows : TdmaMatrix D → (ℕ → ℕ) → ℕ → ℕ
  copy_rows m buf =
      for_up m.active 0 (λ x b. copy b (matrix_start m.active + m.active * x) (m.matrix x) m.active)
        buf

  -- The payload of a matrix whose ages have been set.
  pub payload : TdmaMatrix D → ℕ → ℕ
  payload m =
      let n = m.active in
      let b0 = copy (λ _. 0) 0 (λ _. n) 1 in
      let b1 = copy b0 ids_start m.ids (ids_size n) in
      copy (copy_rows m b1) (age_start n) (double_bytes m.age) (age_size n)

  -- `deserializeMatrix`, on the bytes behind the TDMA header, for a count up to MAX_NODES = 20; with more nodes the code
  -- writes past the arrays, which functions do not show
  pub deserialize : (ℕ → ℕ) → TdmaMatrix D
  deserialize pkt =
      let n = pkt 0 in
      record {
        my_id = 0;
        active = n;
        ids = copy (λ _. 0) 0 (λ x. pkt (ids_start + x)) (ids_size n);
        matrix =
            for_up n 0 (λ x a. upd a x (copy (a x) 0 (λ y. pkt (matrix_start n + n * x + y)) n))
              (λ _ _. 0);
        quality = λ _ _. 0;
        creation = λ _. l.get (λ _. 0);
        age =
            λ i. l.get (λ k. copy (λ _. 0) 0 (λ x. pkt (age_start n + x)) (age_size n) (8 * i + k));
      }

module _ (F : Float) (now : F.T) where
  open F use {T, sub, of_int}

  set_creation : TdmaMatrix T → Option ℕ → TdmaMatrix T
  set_creation m none = m
  set_creation m (some i) = record m { creation = upd m.creation i now }

  -- this node's creation time is set to now, and then every age in use
  pub refresh_ages : TdmaMatrix T → TdmaMatrix T
  unfolding set_creation
  refresh_ages m =
      let t = set_creation m (search_id m m.my_id) in
      record t {
        age =
            for_up t.active 0
              (λ x a.
                upd a x (if t.ids x == t.my_id then of_int (pos 0) else sub now (t.creation x)))
              t.age;
      }

  -- The matrix that is left, the payload and its length, for at most 15 nodes; from 16 nodes on the code writes behind the
  -- memory of the payload. (The case of no memory is left out.)
  unfoldable pub serialize : Layout T → TdmaMatrix T → TdmaMatrix T × (ℕ → ℕ) × ℕ
  serialize l m =
      let t = refresh_ages (remove_dead_links F now m) in (t, payload l t, payload_len t.active)

  pub serialize-active : (l : Layout T) (m : TdmaMatrix T) → (serialize l m).0.active ≤ m.active
  unfolding serialize refresh_ages set_creation
  serialize-active l m =
      from (search_id (remove_dead_links F now m) (remove_dead_links F now m).my_id)
    where
      from : (o : Option ℕ) → (set_creation (remove_dead_links F now m) o).active ≤ m.active
      from none = remove_dead_links-active F now m
      from (some k) = remove_dead_links-active F now m
