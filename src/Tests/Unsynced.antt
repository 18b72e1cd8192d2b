-- ===== src/Tests/Unsynced.antt =====
-- A finding of storage/disk: a Sync that returns no error while the name of its segment is not on
-- the disk, because the one before it failed in the fsync of the directory.
use parallax_kv.Base.{◌≡◌, refl, List, [], ◌∷◌, ok, err}
use parallax_kv.Storage.Disk.{io_error}
use parallax_kv.Storage.Disk.Os.{World, works, fails}
use parallax_kv.Storage.Disk.Segments.{segment_name, max_segment_size, sync_batch}
use parallax_kv.Storage.Disk.Recovery.Written.{with_segment}
use parallax_kv.Storage.Disk.Recovery.Runs.{first_store}

-- A full segment and one byte to write. The close of the segment, the creation of the next one and
-- the open of the directory work; the fsync of the directory fails, and no call behind it.
abbrev full : World
full = record {
  storage = record first_store { seg_size = max_segment_size; buf = 7 ∷ [] };
  os = record {
    directory = with_segment [] 1;
    faults = works ∷ works ∷ works ∷ fails 0 ∷ [];
    unsynced = [];
  };
}

abbrev failed : World
failed = (sync_batch full).1

abbrev tried_again : World
tried_again = (sync_batch failed).1

first_fails : sync_batch full ≡ (err io_error, failed)
unfolding sync_batch parallax_kv.Storage.Disk.Segments.sync_buffered
    parallax_kv.Storage.Disk.Segments.rotate_segment parallax_kv.Storage.Disk.Segments.close_active
    parallax_kv.Storage.Disk.Os.no_op parallax_kv.Storage.Disk.Os.create parallax_kv.Base.GoMap.get
    parallax_kv.Base.GoMap.put segment_name parallax_kv.Base.padded
    parallax_kv.Storage.Disk.Segments.activate parallax_kv.Storage.Disk.Os.fsync_dir
first_fails = refl

second_works : sync_batch failed ≡ (ok tt, tried_again)
unfolding sync_batch parallax_kv.Storage.Disk.Segments.sync_buffered
    parallax_kv.Storage.Disk.Segments.rotate_segment parallax_kv.Storage.Disk.Segments.close_active
    parallax_kv.Storage.Disk.Os.no_op parallax_kv.Storage.Disk.Os.create parallax_kv.Base.GoMap.get
    parallax_kv.Base.GoMap.put segment_name parallax_kv.Base.padded
    parallax_kv.Storage.Disk.Segments.activate parallax_kv.Storage.Disk.Os.fsync_dir
    parallax_kv.Storage.Disk.Os.write parallax_kv.Storage.Disk.new parallax_kv.Storage.Disk.Os.sync
second_works = refl

name_not_covered : tried_again.os.unsynced ≡ segment_name 2 ∷ []
unfolding sync_batch parallax_kv.Storage.Disk.Segments.sync_buffered
    parallax_kv.Storage.Disk.Segments.rotate_segment parallax_kv.Storage.Disk.Segments.close_active
    parallax_kv.Storage.Disk.Os.no_op parallax_kv.Storage.Disk.Os.create parallax_kv.Base.GoMap.get
    parallax_kv.Base.GoMap.put segment_name parallax_kv.Base.padded
    parallax_kv.Storage.Disk.Segments.activate parallax_kv.Storage.Disk.Os.fsync_dir
    parallax_kv.Storage.Disk.Os.write parallax_kv.Storage.Disk.new parallax_kv.Storage.Disk.Os.sync
name_not_covered = refl

nothing_left : tried_again.storage.buf ≡ []
unfolding sync_batch parallax_kv.Storage.Disk.Segments.sync_buffered
    parallax_kv.Storage.Disk.Segments.rotate_segment parallax_kv.Storage.Disk.Segments.close_active
    parallax_kv.Storage.Disk.Os.no_op parallax_kv.Storage.Disk.Os.create parallax_kv.Base.GoMap.get
    parallax_kv.Base.GoMap.put segment_name parallax_kv.Base.padded
    parallax_kv.Storage.Disk.Segments.activate parallax_kv.Storage.Disk.Os.fsync_dir
    parallax_kv.Storage.Disk.Os.write parallax_kv.Storage.Disk.new parallax_kv.Storage.Disk.Os.sync
nothing_left = refl
