-- ===== src/Room.antt =====
-- internal/domain/room: room settings, the lobby before a match, and the start confirmation.
pub mod Settings
pub mod Lobby
pub mod StartConfirmation
