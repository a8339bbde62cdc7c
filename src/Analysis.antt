-- ===== src/Analysis.antt =====
-- src/analysis/common: the dataflow graph of a module and the fixpoint iteration over it.
pub mod Graph
pub mod Fixpoint
