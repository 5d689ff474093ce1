-- ===== src/Gateway.antt =====
-- packages/o-gateway-registry: the codec of public keys, the naming policy, canonical JSON, the
-- resolver of gateway names and the verifier of signatures.
pub mod Multibase
pub mod Canonical
pub mod Names
pub mod Resolver
pub mod Verifier
