-- ===== src/Events/Tests.antt =====
-- The theorems on events at concrete inputs.
use routing_mesh.Prelude.{ℕ, ◌+◌, some, []}
use routing_mesh.Routing.Tests.{manager}
use routing_mesh.Events.{Node}

abbrev node : Node ℕ
node = record { routing = manager; num_nodes = 5; tcp_sockfd = λ i. some (i + 10); closed = [] }
