-- ===== src/Libraries.antt =====
-- The methods of the libraries of lib_src/ other than string and msgqueue, which have modules of
-- their own: one constant for each handler, with the name and the parameters that it registers, and
-- the list in the order of the library's main function.
pub mod Documented
pub mod Ciphers
pub mod Trees
pub mod Sys
pub mod Network
pub mod Tls
pub mod Sets
pub mod Members
mod Tests
