-- ===== src/Cpu.antt =====
-- internal/domain/cpu: what a CPU player does next.
pub mod Ranking
pub mod Policy
