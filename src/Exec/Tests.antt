-- ===== src/Exec/Tests.antt =====
-- The theorem on a fork, at a small state.
