-- ===== src/Transmit/Tests.antt =====
-- A slot that crosses the end of a round of 150 ms, after the crossing.
use routing_mesh.Prelude.{◌+◌, ◌%◌, ◌≡◌, arith}
use routing_mesh.Transmit.{raw_end}
use routing_mesh.Transmit.End.{until_end, InSlot, second_part, excess, raw_end-next}

crossed : InSlot 120 20 (300005000 % 150000)
crossed = second_part (omega arith) (omega arith)

raw_end-next_example :
    raw_end 120 20 150000 300005000
    ≡ 300005000 + until_end 20000 150000 300005000 + excess 150000 crossed
raw_end-next_example = raw_end-next 120 20 150000 300005000 (omega arith) (omega arith) crossed
