-- ===== src/Tests.antt =====
-- Runs of the definitions on small programs, and instances of the theorems.
pub mod Programs
pub mod Policy
pub mod Taint
pub mod Graph
pub mod Names
pub mod AuthLogic
pub mod Typing
pub mod Termination
pub mod Ambient
pub mod Sql
pub mod Universes
pub mod Types
pub mod Proto
