-- ===== src/Server.antt =====
-- The HTTP server in front of a node.
pub mod Validation
