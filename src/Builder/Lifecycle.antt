-- ===== src/Builder/Lifecycle.antt =====
-- runtime/builder/src/lifecycle: generations of an account's identity, and account certificates.
pub mod Keys
pub mod Certificate
pub mod Hydration
pub mod StorageRoot
pub mod Resolve
pub mod Canonicalize
pub mod Process
