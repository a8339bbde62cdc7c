-- ===== src/Taint.antt =====
-- src/analysis/taint: the abstract domain, the inference rules and their interpretation.
pub mod Tags
pub mod Rules
pub mod Builder
pub mod Semantics
