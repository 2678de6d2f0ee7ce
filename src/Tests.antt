-- ===== src/Tests.antt =====
-- Runs of the definitions on concrete inputs, and the theorems at concrete inputs.
mod Paths
mod Copies
mod Archives
mod Lookups
mod Transfers
mod Urls
mod Disk
mod Calls
mod Trees
mod Gathering
mod Downloads
