-- ===== src/Turn.antt =====
-- internal/domain/turn: the queue of throw results and the state machine of one turn.
pub mod Token
pub mod Queue
pub mod Machine
