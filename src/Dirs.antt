-- ===== src/Dirs.antt =====
-- Copies and sizes of directories: internal/helpers/copydir_confined.go, and `CopyDir` and
-- `GetDirectorySize` of internal/helpers/helpers.go.
pub mod Names
pub mod Stays
pub mod Rooted
pub mod Trees
