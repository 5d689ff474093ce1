-- ===== src/Lane.antt =====
-- packages/o-lane: the parser of streamed results, the storage of lanes, and the errors of capabilities.
pub mod StreamParser
pub mod CapabilityErrors
pub mod StorageManager
