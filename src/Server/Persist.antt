-- ===== src/Server/Persist.antt =====
-- server/drive.go, drain: the writes of one batch to the store. The outer `none` is a panic.
use parallax_kv.Base.{Bool, true, false, Option, none, some, List, [], ◌∷◌, Outcome, ok, err}
use parallax_kv.Base.Panics.{◌>>=◌}
use parallax_kv.Raft.Types.{Entry, HardState, Snapshot, Ready}
use parallax_kv.Raft.LogStorage
use parallax_kv.Raft.LogStorage.{StorageError, LogStorage}
use parallax_kv.Storage.Disk
use parallax_kv.Storage.Disk.{
  DiskError, torn_frame, compacted, unavailable, bad_segment_name, io_error,
}
use parallax_kv.Storage.Disk.Os.{World, M}
use parallax_kv.Storage.Disk.Segments.{sync_batch}
use parallax_kv.Storage.Disk.Snapshots.{apply_snapshot}
use parallax_kv.Storage.Disk.Log.{append_entries, entries, term, first_index, last_index}

abbrev pub Written : Type 0
Written = Outcome DiskError (Unit {0}) × World

-- what the node reads of the store
abbrev pub as_log_storage : Disk.Storage → LogStorage
as_log_storage s = record {
  hard_state = ok s.hard_state;
  entries = entries s;
  term = term s;
  first_index = ok (first_index s);
  last_index = ok (last_index s);
  snapshot = ok s.snapshot;
}

-- err != nil && err != raft.ErrCompacted
abbrev pub unless_compacted : Written → Written
unless_compacted (ok u, w) = (ok u, w)
unless_compacted (err torn_frame, w) = (err torn_frame, w)
unless_compacted (err compacted, w) = (ok tt, w)
unless_compacted (err unavailable, w) = (err unavailable, w)
unless_compacted (err bad_segment_name, w) = (err bad_segment_name, w)
unless_compacted (err io_error, w) = (err io_error, w)

unfoldable pub persist_snapshot : Option Snapshot → M (Unit {0})
persist_snapshot none w = (ok tt, w)
persist_snapshot (some snap) w = unless_compacted (apply_snapshot snap w)

abbrev pub disk_error : StorageError → DiskError
disk_error LogStorage.compacted = compacted
disk_error LogStorage.unavailable = unavailable
disk_error LogStorage.failed = io_error

abbrev pub appended : World → Disk.Storage × Option StorageError → Written
appended w (s, none) = (ok tt, record w { storage = s })
appended w (s, some e) = (err (disk_error e), record w { storage = s })

unfoldable pub persist_entries : List Entry → World → Option Written
persist_entries [] w = some (ok tt, w)
persist_entries (e ∷ es) w = do result ← append_entries w.storage (e ∷ es); some (appended w result)

unfoldable pub persist_hard_state : Option HardState → M (Unit {0})
persist_hard_state none w = (ok tt, w)
persist_hard_state (some hs) w =
    (ok tt, record w { storage = Disk.Log.set_hard_state w.storage hs })

unfoldable pub sync_if : Bool → M (Unit {0})
sync_if false w = (ok tt, w)
sync_if true w = sync_batch w

-- the next write, unless the last one has failed
abbrev pub go_on : (World → Option Written) → Written → Option Written
go_on k (ok u, w) = k w
go_on k (err e, w) = some (err e, w)

unfoldable pub persist_log : Ready → World → Option Written
unfolding persist_entries persist_hard_state sync_if
persist_log rd w = do
  written ← persist_entries rd.entries w
  go_on (λ w'. go_on (λ w''. some (sync_if rd.must_sync w'')) (persist_hard_state rd.hard_state w'))
      written

-- (1) Persist
unfoldable pub persist : Ready → World → Option Written
unfolding persist_snapshot persist_log
persist rd w = go_on (persist_log rd) (persist_snapshot rd.snapshot w)
