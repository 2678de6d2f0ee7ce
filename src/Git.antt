-- ===== src/Git.antt =====
-- gather/git/git.go: what a source names, and the clone of it.
pub mod Source
pub mod Keys
pub mod Atoi
pub mod Gather
pub mod Safe
