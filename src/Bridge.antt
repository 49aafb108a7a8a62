-- ===== src/Bridge.antt =====
-- runtime/bridge: the translation of the Go tracer's event stream into canonical events.
pub mod Hex
pub mod Wire
pub mod Parse
pub mod Translate
pub mod Envelope
pub mod Output
pub mod Handoff
pub mod Frames
