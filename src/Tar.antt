-- ===== src/Tar.antt =====
-- expand/tar/tar.go: the expander of tar archives, plain or compressed with gzip or bzip2.
pub mod Untar
pub mod Rules
pub mod Expander
pub mod Confinement
pub mod Below
pub mod Removal
pub mod Accepted
