-- ===== src/MessageQueue.antt =====
-- src/protocol/message/messageQueue.ts: the messages of a session, by round.
pub mod Board
pub mod Log
