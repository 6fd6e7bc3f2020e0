-- ===== src/Orchestrator.antt =====
-- The orchestrator's compact state (src/deepthought/orchestrator).
pub mod Ledger
pub mod Conductor
