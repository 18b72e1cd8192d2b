-- ===== src/Raft.antt =====
-- raft/: the consensus core, a deterministic state machine that a driver steps.
pub mod Types
pub mod LogStorage
pub mod Config
pub mod Progress
pub mod Unstable
pub mod ReadOnly
pub mod Log
pub mod Core
pub mod Keeps
pub mod Reads
pub mod Replication
pub mod Election
pub mod Handlers
pub mod Step
pub mod Node
pub mod Safety
