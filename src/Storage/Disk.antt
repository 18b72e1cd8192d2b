-- ===== src/Storage/Disk.antt =====
-- storage/disk/disk.go, types: the state of the durable log, and its errors without their text.
-- The test hooks are nil outside tests and are left out, and so is the directory's own path.
pub mod Os
pub mod Framing
pub mod Records
pub mod Segments
pub mod Snapshots
pub mod Wal
pub mod Log
pub mod Recovery
use parallax_kv.Base.{ℕ, Bool, false, Option, none, List, [], Bytes}
use parallax_kv.Raft.Types.{Entry, HardState, Snapshot}

pub data DiskError : Type 0 where
  torn_frame compacted unavailable bad_segment_name : DiskError
  -- a failed call of the operating system
  io_error : DiskError

-- entries[i] holds the entry at index snapshot.metadata.index + 1 + i
pub record Storage : Type 0 where
  pub hard_state : HardState
  pub snapshot : Snapshot
  pub snapshot_truncation_pending : Bool
  pub entries : List Entry
  -- framed records written since the last Sync
  pub buf : Bytes
  -- the file name of the active segment, if it is open
  pub seg : Option Bytes
  pub seg_size : ℕ
  pub seg_seq : ℕ
  pub no_sync : Bool

-- &Storage{dir: dir}
unfoldable pub new : Storage
new = record {
  hard_state = record { term = 0; vote = 0; commit = 0 };
  snapshot = record { metadata = record { index = 0; term = 0 }; payload = [] };
  snapshot_truncation_pending = false;
  entries = [];
  buf = [];
  seg = none;
  seg_size = 0;
  seg_seq = 0;
  no_sync = false;
}

abbrev pub offset : Storage → ℕ
offset s = s.snapshot.metadata.index
