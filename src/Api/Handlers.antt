-- ===== src/Api/Handlers.antt =====
-- src/pet/api/exception_handlers.py: from an exception to a problem response. Logging is left out.
mod Problem
pub mod Quoting
pub mod Database
unfoldable pub use Problem.*
