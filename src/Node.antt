-- ===== src/Node.antt =====
-- packages/o-node: the managers of a running node, its connections, and its routing.
pub mod LockManager
pub mod Reconnection
pub mod Registration
pub mod Heartbeat
pub mod Connections
pub mod SearchResolver
pub mod HierarchyEvents
pub mod Resolvers
pub mod Routing
