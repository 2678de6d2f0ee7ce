-- ===== src/Zip.antt =====
-- expand/zip/zip.go: the expander of ZIP archives.
pub mod Unzip
pub mod Confinement
pub mod Below
pub mod Removal
pub mod Accepted
