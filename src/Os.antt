-- ===== src/Os.antt =====
-- What the code calls of package `os`, on a file tree, with failures that the environment chooses.
mod Defs
pub mod Places
pub mod Confined
pub mod Intact
pub mod Filled
pub mod Written
pub mod Replace
pub mod Removal
unfoldable pub use Defs.*
