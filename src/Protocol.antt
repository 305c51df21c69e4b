-- ===== src/Protocol.antt =====
-- The protocol's vocabulary: states (state.go), verbs (command.go), the state machine
-- (statemachine.go) and replies (reply.go).
pub mod State
pub mod Command
pub mod Machine
pub mod Reply
