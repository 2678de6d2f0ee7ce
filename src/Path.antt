-- ===== src/Path.antt =====
-- What the code uses of `path/filepath`, and the place that a path leads to.
mod Defs
pub mod Split
pub mod Normal
pub mod Clean
pub mod Straight
pub mod Idempotent
pub mod Dir
unfoldable pub use Defs.*
