-- ===== src/Pdr/Tests.antt =====
-- The estimate at a concrete input.
use routing_mesh.Prelude.{ℕ, ◌==◌, ◌&&◌, if◌then◌else◌, arith}
use routing_mesh.Pdr.{Pdr, pdr_estimate}
use routing_mesh.Pdr.Estimate.{Estimated, pdr_estimate-Estimated}
use routing_mesh.Sync.Tests.{fixed}

-- the state of `pdr_init`, but for a number that node 2 sent
abbrev begun : Pdr ℕ
begun = record {
  seq_table = λ s i. if s == 2 && i == 0 then 7 else 0;
  w_ptr = λ s. if s == 2 then 1 else 0;
  pdr_in = λ _. 0;
  pkt_count = λ _. 0;
}

pdr_estimate-Estimated_example : Estimated fixed begun 2 9 (pdr_estimate fixed begun 2 9)
pdr_estimate-Estimated_example = pdr_estimate-Estimated fixed begun 2 9 (omega arith) (omega arith)
