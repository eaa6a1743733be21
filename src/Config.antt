-- ===== src/Config.antt =====
-- src/pet/config/logging.py: what the processors do to the fields of a log event.
mod Events
pub mod Hidden
unfoldable pub use Events.*
