-- ===== src/AuthLogic.antt =====
-- src/ir/auth_logic and src/ir/datalog: the authorization logic and its lowering to Datalog.
pub mod Datalog
pub mod Ast
pub mod Lowering
pub mod Declarations
pub mod Visiting
pub mod Environments
pub mod Universes
