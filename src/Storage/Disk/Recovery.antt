-- ===== src/Storage/Disk/Recovery.antt =====
-- storage/disk: what the files of a running store hold, so that Open can rebuild it.
pub mod Open
pub mod Written
pub mod Sync
pub mod Crash
pub mod Runs
use parallax_kv.Base.{
  ℕ, suc, ◌+◌, ◌^◌, ◌<◌, ◌≡◌, ◌≢◌, Bool, false, none, some, List, [], ◌∷◌, ◌++◌, Bytes, length,
  bytes_eq, sort_by, bytes_leb,
}
use parallax_kv.Base.GoMap
use parallax_kv.Storage.Disk.{Storage, new}
use parallax_kv.Storage.Disk.Os.{World, File}
use parallax_kv.Storage.Disk.Os.Calm.{Directory}
use parallax_kv.Storage.Disk.Segments.{segment_name, is_segment, select}
use parallax_kv.Storage.Disk.Segments.Names.{AllBelow}
use parallax_kv.Storage.Disk.Snapshots.{is_snapshot}
use parallax_kv.Storage.Disk.Records.Redo.{Record, log_bytes}
use parallax_kv.Storage.Disk.Log.Logged.{IsLogged}

-- what listSegments returns
abbrev pub segments_of : Directory → List Bytes
segments_of d = sort_by bytes_leb (select is_segment (GoMap.keys d))

-- segments with the records that they hold
abbrev pub Segments : Type 0
Segments = List (Bytes × List Record)

abbrev pub names : Segments → List Bytes
names [] = []
names ((n, rs) ∷ segs) = n ∷ names segs

abbrev pub records : Segments → List Record
records [] = []
records ((n, rs) ∷ segs) = rs ++ records segs

abbrev pub Holds : Directory → Bytes → List Record → Type 0
Holds d n rs = (f : File) × (GoMap.get d n ≡ some f) × (f.content ≡ log_bytes rs)

abbrev pub AllHeld : Directory → Segments → Type 0
AllHeld d [] = Unit
AllHeld d ((n, rs) ∷ segs) = Holds d n rs × AllHeld d segs

-- None of the segments has this name.
abbrev pub AllApart : Bytes → Segments → Type 0
AllApart m [] = Unit
AllApart m ((n, rs) ∷ segs) = (n ≢ m) × AllApart m segs

-- a file whose bytes are all on the disk
abbrev pub durable_file : Bytes → File
durable_file content = record { content = content; synced = length content }

-- A number that no segment has reached.
pub record IsFresh (d : Directory) (k : ℕ) : Type 0 where
  pub absent : GoMap.get d (segment_name k) ≡ none
  pub above : AllBelow (segment_name k) (select is_segment (GoMap.keys d))

-- The directory of a log without snapshots: earlier segments, and an active one with records
-- that an fsync covers.
pub record IsLog (d : Directory) (older : Segments) (seq : ℕ) (safe : List Record) : Type 0 where
  pub listed : segments_of d ≡ names older ++ segment_name seq ∷ []
  pub held : AllHeld d older
  pub active : GoMap.get d (segment_name seq) ≡ some (durable_file (log_bytes safe))
  pub apart : AllApart (segment_name seq) older
  pub fresh : (k : ℕ) → seq < k → k < 2 ^ 64 → IsFresh d k
  pub word : seq < 2 ^ 64
  pub no_snapshots : select is_snapshot (GoMap.keys d) ≡ []

-- The records of the files and of the buffer, in this order, replay to what the store holds.
pub record IsDurable (s : Storage) (d : Directory) : Type 0 where
  pub older : Segments
  pub seq : ℕ
  pub safe : List Record
  pub pending : List Record
  pub log : IsLog d older seq safe
  pub seg : s.seg ≡ some (segment_name seq)
  pub seg_seq : s.seg_seq ≡ seq
  pub buffer : s.buf ≡ log_bytes pending
  pub logged : IsLogged new s ((records older ++ safe) ++ pending)
  pub settled : s.snapshot_truncation_pending ≡ false
