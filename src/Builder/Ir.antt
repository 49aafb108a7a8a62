-- ===== src/Builder/Ir.antt =====
-- runtime/builder/src/ir and traits.rs: the flat relational tables, before and after reduction.
mod Keys
mod Histories
pub mod Lineage
mod Tables
unfoldable pub use Keys.*
unfoldable pub use Histories.*
pub use Tables.*
