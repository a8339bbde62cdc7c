-- ===== src/Ambient.antt =====
-- src/frontends/ambient: the policy checker of the ambient demonstration.
pub mod Names
pub mod PolicyChecker
