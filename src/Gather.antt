-- ===== src/Gather.antt =====
-- gather/: which gatherer takes a URI, the pinned URLs, and what gathers a file.
pub mod Matchers
pub mod Pinned
pub mod Format
pub mod Files
pub mod Registry
pub mod Copying
pub mod Save
