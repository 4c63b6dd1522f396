-- ===== src/Gc.antt =====
-- internal/gc: the eviction work of the agent.
pub mod Ghost
