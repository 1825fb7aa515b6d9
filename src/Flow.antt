-- ===== src/Flow.antt =====
-- internal/application: the flow of a running match, from a player's command through the automatic
-- steps that follow it, over the turn machine, the match and the policy of the computer player.
pub mod Events
pub mod Builders
pub mod Runtime
pub mod Sequences
pub mod Candidates
pub mod Exposed
pub mod Refused
pub mod Start
pub mod Resolution
pub mod Tasks
pub mod Flush
pub mod Commands
pub mod Invariant
pub mod Ledger
