-- ===== src/Tests/Overwritten.antt =====
-- A finding of storage/disk: overwritten entries that come back behind a restart.
use parallax_kv.Base.{
  ℕ, ◌≡◌, refl, some, none, List, [], ◌∷◌, be_bytes, be_value, checksum, padded, scan_padded,
  sort_by, insert_by, bytes_leb,
}
use parallax_kv.Base.GoMap
use parallax_kv.Raft.Types.{Entry, entry_normal, Snapshot}
use parallax_kv.Storage.Disk.Os.Calm.{calm}
use parallax_kv.Storage.Disk.Recovery.Written.{with_segment}
use parallax_kv.Storage.Disk.Recovery.Runs.{first_store}
use parallax_kv.Storage.Disk.{new}
use parallax_kv.Storage.Disk.Os.{
  World, no_op, read_dir, read_file, stat_size, open_file, create, create_empty, write, truncate,
  sync, remove, rename, ignoring, fsync_dir,
}
use parallax_kv.Storage.Disk.Framing.{
  field, type_byte, type_of_byte, encode_entry, decode_entry, encode_hard_state, decode_hard_state,
  encode_truncate_suffix, decode_truncate_suffix, frame, append_frame, read_frame,
}
use parallax_kv.Storage.Disk.Records.{
  apply_entry_record, truncate_suffix, is_boundary, settle, apply_typed, apply_record,
}
use parallax_kv.Storage.Disk.Segments.{
  has_prefix, has_suffix, segment_name, seq_before_suffix, parse_segment_seq, is_segment, select,
  list_segments, remove_all, remove_segments, truncate_segment, close_named, close_active, activate,
  rotate_segment, or_bad_name, set_active, open_named, open_last, open_active_segment, on_seg,
  rotate_full, wrote, write_buffer, sync_buffered, sync_batch,
}
use parallax_kv.Storage.Disk.Snapshots.{
  snap_payload, parse_snap_payload, snapshot_name, write_snapshot_file, retain_suffix, diverges,
  behind, apply_snapshot, read_snapshot_file, is_snapshot, load_newest, load_latest_snapshot,
}
use parallax_kv.Storage.Disk.Wal.{
  applied, round, replay_from, replay, cut_at, replay_content, replay_segment, replay_later,
  replay_segments, repair, drop_divergent, open_replayed, recover, open_storage,
}
use parallax_kv.Storage.Disk.Log.{buffer_entries, splice, append_entries}

abbrev entry : ℕ → ℕ → Entry
entry i t = record { term = t; index = i; type = entry_normal; payload = i ∷ [] }

abbrev snap : Snapshot
snap = record { metadata = record { index = 2; term = 2 }; payload = 9 ∷ [] }

-- Entries 1 to 3 of term 1, then entry 2 of term 2 in the place of two of them, and a snapshot up
-- to it: the store has no entry any more, and opened again it has entry 3 of term 1.
appending : World → List Entry → World
appending w es = elim (append_entries w.storage es) [
  | none ↦ w
  | some (s, e) ↦ record w { storage = s }
]

overwritten : World
unfolding appending
overwritten =
    let start = calm first_store (with_segment [] 1) in
    let first = appending start (entry 1 1 ∷ entry 2 1 ∷ entry 3 1 ∷ []) in
    (apply_snapshot snap (sync_batch (appending first (entry 2 2 ∷ []))).1).1

entries_before : overwritten.storage.entries ≡ []
unfolding overwritten appending new no_op read_dir read_file stat_size open_file create create_empty
    write truncate sync remove rename ignoring fsync_dir field type_byte type_of_byte encode_entry
    decode_entry encode_hard_state decode_hard_state encode_truncate_suffix decode_truncate_suffix
    frame append_frame read_frame apply_entry_record truncate_suffix is_boundary settle apply_typed
    apply_record has_prefix has_suffix segment_name seq_before_suffix parse_segment_seq is_segment
    select list_segments remove_all remove_segments truncate_segment close_named close_active
    activate rotate_segment or_bad_name set_active open_named open_last open_active_segment on_seg
    rotate_full wrote write_buffer sync_buffered sync_batch snap_payload parse_snap_payload
    snapshot_name write_snapshot_file retain_suffix diverges behind apply_snapshot
    read_snapshot_file is_snapshot load_newest load_latest_snapshot applied round replay_from replay
    cut_at replay_content replay_segment replay_later replay_segments repair drop_divergent
    open_replayed recover open_storage buffer_entries splice append_entries be_bytes be_value
    checksum padded scan_padded sort_by insert_by bytes_leb GoMap.get GoMap.put GoMap.delete
entries_before = refl

entries_after : (open_storage overwritten.os).1.storage.entries ≡ entry 3 1 ∷ []
unfolding overwritten appending new no_op read_dir read_file stat_size open_file create create_empty
    write truncate sync remove rename ignoring fsync_dir field type_byte type_of_byte encode_entry
    decode_entry encode_hard_state decode_hard_state encode_truncate_suffix decode_truncate_suffix
    frame append_frame read_frame apply_entry_record truncate_suffix is_boundary settle apply_typed
    apply_record has_prefix has_suffix segment_name seq_before_suffix parse_segment_seq is_segment
    select list_segments remove_all remove_segments truncate_segment close_named close_active
    activate rotate_segment or_bad_name set_active open_named open_last open_active_segment on_seg
    rotate_full wrote write_buffer sync_buffered sync_batch snap_payload parse_snap_payload
    snapshot_name write_snapshot_file retain_suffix diverges behind apply_snapshot
    read_snapshot_file is_snapshot load_newest load_latest_snapshot applied round replay_from replay
    cut_at replay_content replay_segment replay_later replay_segments repair drop_divergent
    open_replayed recover open_storage buffer_entries splice append_entries be_bytes be_value
    checksum padded scan_padded sort_by insert_by bytes_leb GoMap.get GoMap.put GoMap.delete
entries_after = refl
