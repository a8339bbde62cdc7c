-- ===== src/Policy.antt =====
-- src/backends/policy_engine: the policy checkers.
pub mod Checker
pub mod Soundness
pub mod Verdict
pub mod Flows
pub mod Termination
