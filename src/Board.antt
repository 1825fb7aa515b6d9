-- ===== src/Board.antt =====
-- internal/domain/board: the board graph and the movements that it allows.
pub mod Validate
pub mod Types
pub mod Forward
pub mod Backdo
pub mod Canonical
pub mod Distance
pub mod Reachable
