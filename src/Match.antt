-- ===== src/Match.antt =====
-- internal/domain/match: the pieces of a match, and what a movement does to them.
pub mod Types
pub mod BukDestination
pub mod Game
pub mod Resolution
pub mod Movement
pub mod Buk
pub mod Runs
pub mod Invariant
