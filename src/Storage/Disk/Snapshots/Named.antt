-- ===== src/Storage/Disk/Snapshots/Named.antt =====
-- storage/disk/snapshot.go: ApplySnapshot, when it works, leaves no name that an fsync of the
-- directory does not cover.
use parallax_kv.Base.{Bool, true, false}
use parallax_kv.Raft.Types.{Snapshot}
use parallax_kv.Storage.Disk.{Storage}
use parallax_kv.Storage.Disk.Os.Named.{
  Settles, Covers, Covers-Settles, bind-Covers, pure-Settles, fsync_dir-Covers,
}
use parallax_kv.Storage.Disk.Segments.Named.{settling, sync_buffered-Settles}
use parallax_kv.Storage.Disk.Snapshots.{
  write_snapshot_file, clear_pending, buffer_marker, mark_truncation, mark_diverging, install,
  apply_snapshot,
}

write_snapshot_file-Covers : (snap : Snapshot) (b : Bool) → Covers (write_snapshot_file snap b)
unfolding write_snapshot_file
write_snapshot_file-Covers snap b = search (bind-Covers, fsync_dir-Covers) depth 16

mark_truncation-Settles : (snap : Snapshot) → Settles (mark_truncation snap)
unfolding mark_truncation clear_pending buffer_marker
mark_truncation-Settles snap = search (settling, sync_buffered-Settles) depth 12

mark_diverging-Settles : (b : Bool) (snap : Snapshot) → Settles (mark_diverging b snap)
unfolding mark_diverging
mark_diverging-Settles false snap = pure-Settles tt
mark_diverging-Settles true snap = mark_truncation-Settles snap

install-Settles : (s : Storage) (snap : Snapshot) → Settles (install s snap)
unfolding install
install-Settles s snap =
    search (settling, Covers-Settles, write_snapshot_file-Covers, mark_diverging-Settles) depth 12

pub apply_snapshot-Settles : (snap : Snapshot) → Settles (apply_snapshot snap)
unfolding apply_snapshot
apply_snapshot-Settles snap = search (settling, install-Settles) depth 10
