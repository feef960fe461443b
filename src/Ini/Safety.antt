-- ===== src/Ini/Safety.antt =====
-- src/ini.c: `split_data` and `ini_get` stay inside the block and end.
pub mod Primitives
pub mod Scans
pub mod Unescape
pub mod Splitting
pub mod Lookup
pub mod Loading
pub mod Quiet
