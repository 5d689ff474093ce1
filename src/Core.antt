-- ===== src/Core.antt =====
-- packages/o-core: addresses and their resolution, the managers of a node, its tokens, its responses
-- and the shutdown of its process.
pub mod Address
pub mod Hierarchy
pub mod Notifications
pub mod ResolverChain
pub mod TokenManager
pub mod ResponseBuilder
pub mod GracefulShutdown
