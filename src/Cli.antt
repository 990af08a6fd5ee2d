-- ===== src/Cli.antt =====
-- libucli: the shell library.
pub mod Ptype
pub mod Param
pub mod Command
pub mod Pargv
pub mod Variable
pub mod View
pub mod Shell
