-- ===== src/Expand.antt =====
-- expand/expander.go: limits, the bounded copy, clean-up after an error, the registry of expanders
-- and the tests for magic numbers.
pub mod Limits
pub mod Copy
pub mod Io
pub mod Rules
pub mod Invariants
pub mod Cleanup
pub mod Below
pub mod Undone
pub mod Registry
pub mod Magic
