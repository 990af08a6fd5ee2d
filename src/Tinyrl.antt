-- ===== src/Tinyrl.antt =====
-- contrib/tinyrl: the editor of a command line.
pub mod History
pub mod Expand
pub mod Memory
pub mod Editor
pub mod Redisplay
pub mod Vt100
pub mod Complete
pub mod Keys
pub mod Readline
pub mod Batch
