-- ===== src/Cse.antt =====
-- runtime/cse: the canonical semantic events and the validator of their stream.
mod Words
mod Context
mod Payloads
mod Event
pub mod Validator
pub use Words.*
pub use Context.*
pub use Payloads.*
unfoldable pub use Event.*
