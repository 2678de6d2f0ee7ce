-- ===== src/Url.antt =====
-- Package net/url, as far as the gatherers use it.
pub mod Escape
pub mod Ip
pub mod Authority
pub mod Parse
pub mod Print
pub mod Query
