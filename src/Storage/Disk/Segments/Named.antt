-- ===== src/Storage/Disk/Segments/Named.antt =====
-- storage/disk: the operations that work leave no name that an fsync of the directory does not cover.
use parallax_kv.Base.{Bool, Option, none, some, Bytes, ℕ}
use parallax_kv.Storage.Disk.{io_error}
use parallax_kv.Storage.Disk.Os.{M}
use parallax_kv.Storage.Disk.Os.Named.{
  Settles, Covers, Covers-Settles, bind-Settles, bind-Covers, if-Settles, pure-Settles, get-Settles,
  put-Settles, fail-Settles, sync-Settles, write-Settles, fsync_dir-Covers,
}
use parallax_kv.Storage.Disk.Segments.{
  rotate_segment, rotate_full, on_seg, wrote, write_buffer, sync_buffered, sync_batch,
}

pub ruleset settling = (
  bind-Settles, if-Settles, pure-Settles, get-Settles, put-Settles, fail-Settles, sync-Settles,
  write-Settles,
)

rotate_segment-Covers : (seq : ℕ) → Covers (rotate_segment seq)
unfolding rotate_segment
rotate_segment-Covers seq = search (bind-Covers, fsync_dir-Covers) depth 8

rotate_full-Settles : Settles rotate_full
unfolding rotate_full
rotate_full-Settles = search (settling, Covers-Settles, rotate_segment-Covers) depth 10

on_seg-Settles :
    (f : Bytes → M (Unit {0})) (o : Option Bytes)
    → ((n : Bytes) → Settles (f n))
    → Settles (on_seg f o)
unfolding on_seg
on_seg-Settles f none h = fail-Settles io_error
on_seg-Settles f (some n) h = h n

wrote-Settles : Settles wrote
unfolding wrote
wrote-Settles = search settling depth 8

write_buffer-Settles : (durable : Bool) → Settles (write_buffer durable)
unfolding write_buffer
write_buffer-Settles durable = search (settling, on_seg-Settles, wrote-Settles) depth 14

pub sync_buffered-Settles : (durable : Bool) → Settles (sync_buffered durable)
unfolding sync_buffered
sync_buffered-Settles durable =
    search (settling, rotate_full-Settles, write_buffer-Settles) depth 12

pub sync_batch-Settles : Settles sync_batch
unfolding sync_batch
sync_batch-Settles = search (settling, sync_buffered-Settles) depth 8
