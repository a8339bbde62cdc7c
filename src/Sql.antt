-- ===== src/Sql.antt =====
-- src/frontends/sql: the SQL frontend, which turns an arena of expressions into a module, and its policy
-- rules into inference rules.
pub mod Ops
pub mod Context
pub mod Decode
pub mod PolicyRules
pub mod Analysis
pub mod Driver
