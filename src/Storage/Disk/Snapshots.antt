-- ===== src/Storage/Disk/Snapshots.antt =====
-- storage/disk/snapshot.go: snapshot files, and ApplySnapshot.
pub mod RoundTrip
pub mod Retained
pub mod Failures
pub mod Named
use parallax_kv.Base.{
  ℕ, ◌+◌, ◌-◌, ◌&&◌, ◌||◌, Bool, true, false, not, Option, none, some, List, [], ◌∷◌, ◌++◌, reverse,
  Bytes, Outcome, ok, err, length, take, drop, get_elem?, leb, ltb, add64, u32, ◌==◌, nat_eq,
  if◌then◌else◌, sort_by, bytes_leb, be_bytes, padded,
}
use parallax_kv.Raft.Types.{Entry, Snapshot}
use parallax_kv.Storage.Disk.{Storage, DiskError, torn_frame, compacted, offset}
use parallax_kv.Storage.Disk.Framing.{
  field, frame, append_frame, read_frame, encode_truncate_suffix,
}
use parallax_kv.Storage.Disk.Os.{
  World, M, ◌>>=◌, ◌>>◌, pure, fail, get, put, read_dir, read_file, create_empty, write, sync,
  remove, rename, no_op, fsync_dir,
}
use parallax_kv.Storage.Disk.Segments.{has_prefix, has_suffix, select, sync_buffered}

abbrev snapshot_flag_truncate_suffix : ℕ
snapshot_flag_truncate_suffix = 1

pub record StoredSnapshot : Type 0 where
  pub snapshot : Snapshot
  pub truncate_suffix : Bool

unfoldable pub snap_payload : Snapshot → Bool → Bytes
snap_payload snap truncate_suffix =
    be_bytes 8 snap.metadata.index
    ++ (be_bytes 8 snap.metadata.term
        ++ (be_bytes 4 (u32 (length snap.payload))
            ++ (snap.payload
                ++ (if truncate_suffix then snapshot_flag_truncate_suffix else 0) ∷ [])))

abbrev parsed : Bytes → Bool → StoredSnapshot
parsed payload truncate_suffix = record {
  snapshot = record {
    metadata = record { index = field 0 8 payload; term = field 8 8 payload };
    payload = take (field 16 4 payload) (drop 20 payload);
  };
  truncate_suffix = truncate_suffix;
}

-- A payload without the byte of flags is one that an older version wrote.
unfoldable pub parse_snap_payload : Bytes → Outcome DiskError StoredSnapshot
parse_snap_payload payload =
    if ltb (length payload) 20
    then err torn_frame
    else let data_end = 20 + field 16 4 payload in
      let flags = field data_end 1 payload in
      if length payload == data_end
      then ok (parsed payload false)
      else if length payload == data_end + 1
      then (if ltb 1 flags then err torn_frame else ok (parsed payload (flags == 1)))
      else err torn_frame

-- "snap-", ".snap" and ".tmp"
abbrev snap_prefix : Bytes
snap_prefix = b's' ∷ b'n' ∷ b'a' ∷ b'p' ∷ b'-' ∷ []

abbrev snap_suffix : Bytes
snap_suffix = b'.' ∷ b's' ∷ b'n' ∷ b'a' ∷ b'p' ∷ []

abbrev tmp_suffix : Bytes
tmp_suffix = b'.' ∷ b't' ∷ b'm' ∷ b'p' ∷ []

unfoldable pub snapshot_name : ℕ → Bytes
snapshot_name index = snap_prefix ++ (padded 20 index ++ snap_suffix)

removed : Bytes → Outcome DiskError (Unit {0}) × World → Outcome DiskError (Unit {0}) × World
removed tmp (ok a, w) = (ok a, w)
removed tmp (err e, w) = (err e, (remove tmp w).1)

-- a step of the write, whose failure removes the temporary file
or_remove : Bytes → M (Unit {0}) → M (Unit {0})
unfolding removed
or_remove tmp m w = removed tmp (m w)

unfoldable pub write_snapshot_file : Snapshot → Bool → M (Unit {0})
unfolding or_remove
write_snapshot_file snap truncate_suffix =
    let final = snapshot_name snap.metadata.index in
    let tmp = final ++ tmp_suffix in
    create_empty tmp
    >> (or_remove tmp (write tmp (frame (snap_payload snap truncate_suffix)))
        >> (or_remove tmp (sync tmp)
            >> (or_remove tmp no_op >> (or_remove tmp (rename tmp final) >> fsync_dir))))

-- The log goes on beyond the snapshot, and has its term at its index.
unfoldable pub retain_suffix : Storage → Snapshot → Bool
retain_suffix s snap = elim (get_elem? s.entries (snap.metadata.index - offset s - 1)) [
  | none ↦ false
  | some e ↦
      ltb snap.metadata.index (add64 (offset s) (length s.entries)) && e.term == snap.metadata.term
]

-- The log goes on beyond the snapshot, with another term at its index.
unfoldable pub diverges : Storage → Snapshot → Bool
unfolding retain_suffix
diverges s snap =
    ltb snap.metadata.index (add64 (offset s) (length s.entries)) && not (retain_suffix s snap)

-- the mirror behind the snapshot
unfoldable pub behind : Storage → Snapshot → Storage
behind s snap = record s {
  entries = if retain_suffix s snap then drop (snap.metadata.index - offset s) s.entries else [];
  snapshot = snap;
  snapshot_truncation_pending = diverges s snap;
}

clear_pending : M (Unit {0})
clear_pending = get >>= λ s. put (record s { snapshot_truncation_pending = false })

buffer_marker : Snapshot → M (Unit {0})
buffer_marker snap =
    get >>= λ s. put (record s { buf = append_frame s.buf (encode_truncate_suffix snap.metadata) })

-- the marker of a truncation, in the log before ApplySnapshot returns
mark_truncation : Snapshot → M (Unit {0})
unfolding clear_pending buffer_marker
mark_truncation snap = buffer_marker snap >> (sync_buffered true >> clear_pending)

mark_diverging : Bool → Snapshot → M (Unit {0})
unfolding mark_truncation
mark_diverging false snap = pure tt
mark_diverging true snap = mark_truncation snap

-- what is left to do for a snapshot that is not stale
install : Storage → Snapshot → M (Unit {0})
unfolding mark_diverging
install s snap =
    write_snapshot_file snap (diverges s snap)
    >> (put (behind s snap) >> mark_diverging (diverges s snap) snap)

unfoldable pub apply_snapshot : Snapshot → M (Unit {0})
unfolding install
apply_snapshot snap = do
  s ← get
  if leb snap.metadata.index (offset s) then fail compacted else install s snap

-- the payload of a snapshot file
parse_framed : Outcome DiskError (Bytes × ℕ) → Outcome DiskError StoredSnapshot
parse_framed (err e) = err e
parse_framed (ok (payload, n)) = parse_snap_payload payload

unfoldable pub read_snapshot_file : Bytes → M StoredSnapshot
unfolding parse_framed
read_snapshot_file path = do content ← read_file path; λ w. (parse_framed (read_frame content), w)

unfoldable pub is_snapshot : Bytes → Bool
is_snapshot n = has_prefix n snap_prefix && has_suffix n snap_suffix

-- The names from the newest on; a file that cannot be read is passed over.
unfoldable pub load_newest : List Bytes → M (Unit {0})
load_newest [] w = (ok tt, w)
load_newest (n ∷ ns) w =
    let older = load_newest ns in
    let (r, w') = read_snapshot_file n w in
    elim r [
      | err e ↦ older w'
      | ok stored ↦
          (do
            s ← get
            put (record s {
              snapshot = stored.snapshot;
              snapshot_truncation_pending = stored.truncate_suffix;
            }))
            w'
    ]

unfoldable pub load_latest_snapshot : M (Unit {0})
unfolding load_newest is_snapshot
load_latest_snapshot = do
  names ← read_dir
  load_newest (reverse (sort_by bytes_leb (select is_snapshot names)))
