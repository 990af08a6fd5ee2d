-- ===== src/Tests.antt =====
-- Runs of the definitions on concrete inputs, and instances of the theorems.
mod Libraries
mod Editing
mod Commands
mod Shells
mod Types
