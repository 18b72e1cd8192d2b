-- ===== src/Kv.antt =====
-- kv/: the replicated application state machine, its commands and its binary encodings.
pub mod Codec
pub mod Command
pub mod StateMachine
