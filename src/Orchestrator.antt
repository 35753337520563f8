-- ===== src/Orchestrator.antt =====
-- app/orchestrator/: what the assistant asks next.
pub mod SlotFilling
