-- ===== src/Pdr.antt =====
-- pdr.c: the packet delivery ratio of a link, from the sequence numbers received. `float` is a parameter.
pub mod Estimate
mod Tests
use routing_mesh.Prelude.{
  ℕ, zero, suc, ◌+◌, ◌-◌, ◌*◌, ◌/◌, ◌%◌, ◌^◌, Bool, true, false, ◌&&◌, ◌||◌, Option, none, some,
  leb, ltb, ◌==◌, if◌then◌else◌, upd,
}
use routing_mesh.Prelude.Int.{ℤ, pos, negsuc, to_u16}
use routing_mesh.Prelude.Float.{Float}
use routing_mesh.Matrix.{TdmaMatrix, set_link_quality}

abbrev pub table_size : ℕ
table_size = 300

abbrev pub update_interval : ℕ
update_interval = 10

-- g_seq_table, g_seq_w_ptr, g_pdr_in and g_pkt_count
pub record Pdr (T : Type 0) : Type 0 where
  pub seq_table : ℕ → ℕ → ℕ
  pub w_ptr : ℕ → ℕ
  pub pdr_in : ℕ → T
  pub pkt_count : ℕ → ℕ

-- src_id == 0 || src_id > MAX_NODES
abbrev pub no_node : ℕ → Bool
no_node src = src == 0 || ltb 20 src

-- an entry at or behind which nothing is counted
abbrev pub skipped : (ℕ → ℕ) → ℕ → Bool
skipped t i = t i == 0 || t ((i + 1) % 300) == 0

-- the body of the loop of `pdr_estimate` on missed and min_seq; `none` is the reset on a packet out of order
pub step : (ℕ → ℕ) → ℕ → ℕ → ℕ × ℕ → Option (ℕ × ℕ)
step t seq i (missed, low) =
    if skipped t i
    then some (missed, low)
    else (if ltb seq (t i)
        then none
        else some (
          (missed + (t ((i + 1) % 300) - t i - 1)) % 2 ^ 32,
          (if ltb (t i) low then t i else low),
        ))

-- the loop from index i with k rounds left
pub count_missed : (ℕ → ℕ) → ℕ → ℕ → ℕ → ℕ × ℕ → Option (ℕ × ℕ)
count_missed t seq zero i acc = some acc
count_missed t seq (suc k) i acc = elim (step t seq i acc) [
  | none ↦ none
  | some acc' ↦ count_missed t seq k (i + 1) acc'
]

module _ (F : Float) where
  open F use {T, add, sub, mul, div, of_int, to_int, lit}

  -- the estimate from range and missed, kept within 0 and 100
  pub ratio : ℕ → ℕ → T
  ratio range missed =
      let r = of_int (pos range) in
      let x = div (mul (lit 100 0) (sub r (of_int (pos missed)))) r in
      let y = if F.ltb x (lit 0 0) then lit 0 0 else x in
      if F.ltb (lit 100 0) y then lit 100 0 else y

  -- what follows the loop
  pub finish : Pdr T → ℕ → ℕ → Option (ℕ × ℕ) → Pdr T
  finish p src seq none = record p { seq_table = upd p.seq_table src (λ _. 0) }
  finish p src seq (some (missed, low)) =
      if F.leb (of_int (pos (seq - low))) (lit 0 0)
      then p
      else record p { pdr_in = upd p.pdr_in src (ratio (seq - low) missed) }

  -- the write into the circular table
  pub store : Pdr T → ℕ → ℕ → Pdr T
  store p src seq = record p {
    seq_table = upd p.seq_table src (upd (p.seq_table src) (p.w_ptr src) seq);
    w_ptr = upd p.w_ptr src ((p.w_ptr src + 1) % table_size);
  }

  -- `pdr_estimate`
  pub pdr_estimate : Pdr T → ℕ → ℕ → Pdr T
  pdr_estimate p src seq =
      let s = store p src seq in
      if no_node src
      then p
      else finish s src seq (count_missed (s.seq_table src) seq 299 0 (0, seq))

  -- `pdr_update`, on the ratios and the matrix
  pub pdr_update : {D : Type 0} → Pdr T × TdmaMatrix D → ℕ → ℕ → Pdr T × TdmaMatrix D
  pdr_update (p, m) src msg_id =
      let counted = record p { pkt_count = upd p.pkt_count src ((p.pkt_count src + 1) % 65536) } in
      let q = pdr_estimate counted src msg_id in
      if no_node src
      then (p, m)
      else (if q.pkt_count src % update_interval == 0 && F.leb (lit 0 0) (q.pdr_in src)
          then (q, set_link_quality m src (to_u16 (to_int (q.pdr_in src)) % 256))
          else (q, m))
