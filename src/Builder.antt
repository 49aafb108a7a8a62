-- ===== src/Builder.antt =====
-- runtime/builder: from validated events to canonical account certificates.
pub mod Errors
pub mod Ir
pub mod Partition
pub mod Reduce
pub mod Lifecycle
