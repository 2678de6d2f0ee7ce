-- ===== src/Oci.antt =====
-- gather/oci/oci.go and internal/oci.
pub mod Host
pub mod Registries
pub mod Network
pub mod Client
pub mod Gather
