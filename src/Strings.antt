-- ===== src/Strings.antt =====
-- lib_src/string/mln_lang_string.c: the functions on strings that the library computes itself.
pub mod Hex
pub mod Integer
pub mod Methods
pub mod Split
pub mod Replace
pub mod Join
pub mod Capitalize
mod Tests
