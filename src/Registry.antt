-- ===== src/Registry.antt =====
-- The directories of nodes and agents, and the monitor's store.
pub mod Memory
pub mod AgentRegistry
pub mod MetricsStore
