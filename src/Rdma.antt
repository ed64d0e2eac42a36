-- ===== src/Rdma.antt =====
-- src/rdma: addresses, the simulated verbs, the manager and the allocators.
pub mod GlobalAddress
pub mod Simulation
pub mod Manager
pub mod Allocators
