-- ===== src/Common.antt =====
-- api/crates/common/src: the shared types (types.rs), the errors (error.rs) and the service
-- circuit breaker (circuit_breaker.rs), with the floats and the windows of the analytics crate.
pub mod Types
pub mod Price
pub mod Error
pub mod Breaker
pub mod Floats
pub mod Windows
