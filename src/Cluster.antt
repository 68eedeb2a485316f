-- ===== src/Cluster.antt =====
-- internal/cluster: which node owns a key.
pub mod Routing
pub mod Order
pub mod Pruning
pub mod Iteration
mod Tests
