-- ===== src/Lub.antt =====
-- contrib/lub: the utilities that the shell stands on.
pub mod Ctype
pub mod Text
pub mod Argv
pub mod Bintree
pub mod Fifo
