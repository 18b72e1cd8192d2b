-- ===== src/Raft/LogStorage.antt =====
-- raft/storage.go: what the core reads of its durable log. The core never writes through the
-- interface, so it holds the answers of the reads; the driver's writes give a new record.
use parallax_kv.Base.{ℕ, List, Outcome}
use parallax_kv.Raft.Types.{Entry, HardState, Snapshot}

-- ErrCompacted and ErrUnavailable; `failed` stands for any other error of an implementation.
pub data StorageError : Type 0 where
  compacted unavailable failed : StorageError

pub record LogStorage : Type 0 where
  pub hard_state : Outcome StorageError HardState
  pub entries : ℕ → ℕ → Outcome StorageError (List Entry)
  pub term : ℕ → Outcome StorageError ℕ
  pub first_index : Outcome StorageError ℕ
  pub last_index : Outcome StorageError ℕ
  pub snapshot : Outcome StorageError Snapshot
