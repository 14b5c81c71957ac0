-- ===== src/Memory.antt =====
-- Lock-free memory management (src/memory).
pub mod Hazard
