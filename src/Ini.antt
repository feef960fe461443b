-- ===== src/Ini.antt =====
-- src/ini.c: the reader of the configuration file. Buffer has the memory and the C string functions,
-- Split the pass that cuts the file into strings in place, Get the lookup, and Load the entry points.
pub mod Buffer
pub mod Split
pub mod Get
pub mod Load
pub mod Format
pub mod Safety
