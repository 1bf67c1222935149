-- ===== src/Sys.antt =====
-- lib_src/sys/mln_lang_sys.c: the methods that work on values and arrays.
pub mod Types
pub mod Arrays
pub mod Properties
mod Tests
