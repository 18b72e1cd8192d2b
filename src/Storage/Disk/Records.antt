-- ===== src/Storage/Disk/Records.antt =====
-- storage/disk/wal.go: what one record of the log does to the mirror.
pub mod Redo
pub mod Rebase
use parallax_kv.Base.{
  ℕ, Bool, ◌&&◌, false, [], ◌∷◌, ◌++◌, Bytes, Outcome, ok, err, length, take, leb, ltb, add64,
  sub64, ◌==◌, nat_eq, if◌then◌else◌,
}
use parallax_kv.Raft.Types.{Entry, SnapshotMetadata}
use parallax_kv.Storage.Disk.{Storage, DiskError, torn_frame, offset}
use parallax_kv.Storage.Disk.Framing.{
  rec_entry, rec_hard_state, rec_truncate_suffix, decode_entry, decode_hard_state,
  decode_truncate_suffix,
}

unfoldable pub apply_entry_record : Storage → Entry → Outcome DiskError Storage
apply_entry_record s e =
    let off = offset s in
    if leb e.index off
    then ok s
    else let pos = sub64 e.index (add64 off 1) in
      if ltb (length s.entries) pos
      then err torn_frame
      else ok (record s { entries = take pos s.entries ++ e ∷ [] })

unfoldable pub truncate_suffix : Storage → ℕ → Storage
truncate_suffix s index =
    let off = offset s in
    if leb index off
    then record s { entries = [] }
    else let keep = sub64 index off in
      if ltb keep (length s.entries) then record s { entries = take keep s.entries } else s

-- meta == s.snapshot.Metadata
unfoldable pub is_boundary : SnapshotMetadata → Storage → Bool
is_boundary meta s =
    meta.index == s.snapshot.metadata.index && meta.term == s.snapshot.metadata.term

-- the marker that a pending truncation waits for
unfoldable pub settle : SnapshotMetadata → Storage → Storage
settle meta s =
    if s.snapshot_truncation_pending && is_boundary meta s
    then record s { snapshot_truncation_pending = false }
    else s

unfoldable pub apply_typed : Storage → ℕ → Bytes → Outcome DiskError Storage
apply_typed s type body =
    if type == rec_entry
    then elim (decode_entry body) [ ok e ↦ apply_entry_record s e | err x ↦ err x ]
    else if type == rec_hard_state
    then elim (decode_hard_state body) [ ok st ↦ ok (record s { hard_state = st }) | err x ↦ err x ]
    else if type == rec_truncate_suffix
    then elim (decode_truncate_suffix body) [
      | ok meta ↦ ok (settle meta (truncate_suffix s meta.index))
      | err x ↦ err x
    ]
    else err torn_frame

unfoldable pub apply_record : Storage → Bytes → Outcome DiskError Storage
apply_record s [] = err torn_frame
apply_record s (type ∷ body) = apply_typed s type body
