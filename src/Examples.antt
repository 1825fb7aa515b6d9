-- ===== src/Examples.antt =====
-- Runs of the model at concrete inputs, and the theorems applied to them.
mod Turns
mod Boards
mod Throws
mod Matches
mod Buks
mod Rooms
mod Cpus
mod Flows
