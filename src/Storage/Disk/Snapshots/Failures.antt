-- ===== src/Storage/Disk/Snapshots/Failures.antt =====
-- storage/disk/snapshot.go, ApplySnapshot: what a failed call leaves.
use parallax_kv.Base.{
  ◌≡◌, refl, sym, ap, ◌∙◌, subst, Bool, true, false, Bytes, Outcome, ok, err, leb, if◌then◌else◌,
}
use parallax_kv.Raft.Types.{Snapshot}
use parallax_kv.Storage.Disk.{Storage, DiskError, compacted, offset}
use parallax_kv.Storage.Disk.Framing.{append_frame, encode_truncate_suffix}
use parallax_kv.Storage.Disk.Os.{World, M, ◌>>=◌, ◌>>◌, resume, fail, put, fsync_dir}
use parallax_kv.Storage.Disk.Os.Apart.{
  IsApart, no_op-IsApart, sync_names-IsApart, create_empty-IsApart, sync-IsApart, write-IsApart,
  remove-IsApart, rename-IsApart,
}
use parallax_kv.Storage.Disk.Segments.{sync_buffered}
use parallax_kv.Storage.Disk.Segments.Failures.{SameLog, sync_buffered-KeepsOnError}
use parallax_kv.Storage.Disk.Snapshots.{
  write_snapshot_file, or_remove, removed, diverges, behind, mark_truncation, mark_diverging,
  clear_pending, buffer_marker, install, apply_snapshot,
}

module _ {ℓ κ} {A : Type ℓ} {B : Type κ} where
  resume-IsApart :
      (f : A → M B) (p : Outcome DiskError A × World) (s : Storage)
      → ((a : A) → IsApart (f a))
      → p.1.storage ≡ s
      → (resume f p).1.storage ≡ s
  resume-IsApart f (ok a, w) s hf h = (hf a).at w ∙ h
  resume-IsApart f (err e, w) s hf h = h

  bind-IsApart : (m : M A) (f : A → M B) → IsApart m → ((a : A) → IsApart (f a)) → IsApart (m >>= f)
  bind-IsApart m f hm hf = record { at = λ w. resume-IsApart f (m w) w.storage hf (hm.at w) }

removed-IsApart :
    (tmp : Bytes) (p : Outcome DiskError (Unit {0}) × World) (s : Storage)
    → p.1.storage ≡ s
    → (removed tmp p).1.storage ≡ s
unfolding removed
removed-IsApart tmp (ok a, w) s h = h
removed-IsApart tmp (err e, w) s h = (remove-IsApart tmp).at w ∙ h

or_remove-IsApart : (tmp : Bytes) (m : M (Unit {0})) → IsApart m → IsApart (or_remove tmp m)
unfolding or_remove
or_remove-IsApart tmp m h = record { at = λ w. removed-IsApart tmp (m w) w.storage (h.at w) }

fsync_dir-IsApart : IsApart fsync_dir
unfolding fsync_dir
fsync_dir-IsApart = search (bind-IsApart, no_op-IsApart, sync_names-IsApart) depth 6

-- A snapshot file is written without a change of the store.
write_snapshot_file-IsApart : (snap : Snapshot) (t : Bool) → IsApart (write_snapshot_file snap t)
unfolding write_snapshot_file
write_snapshot_file-IsApart snap t =
    search
      (
        bind-IsApart, or_remove-IsApart, no_op-IsApart, create_empty-IsApart, sync-IsApart,
        write-IsApart, rename-IsApart, fsync_dir-IsApart,
      )
      depth 16

-- What an ApplySnapshot that failed has left: the store before it, or, if the marker of a
-- truncation is not in the log yet, the mirror behind the snapshot with the truncation pending and
-- the marker in the buffer.
pub data IsLeft (s : Storage) (snap : Snapshot) (t : Storage) : Type 0 where
  unchanged : t ≡ s → IsLeft s snap t
  unmarked :
      diverges s snap ≡ true
      → SameLog
          (record (behind s snap) {
            buf = append_frame s.buf (encode_truncate_suffix snap.metadata);
          })
          t
      → IsLeft s snap t

-- the store with the marker in its buffer
abbrev marked : Storage → Snapshot → Storage
marked s snap = record (behind s snap) {
  buf = append_frame s.buf (encode_truncate_suffix snap.metadata);
}

synced_or_failed :
    (p : Outcome DiskError (Unit {0}) × World) (w' : World) (e : DiskError)
    → resume (λ _. clear_pending) p ≡ (err e, w')
    → p ≡ (err e, w')
unfolding clear_pending
synced_or_failed (ok a, w) w' e h = cc
synced_or_failed (err x, w) w' e h = h

mark_IsLeft :
    (s : Storage) (snap : Snapshot) (b : Bool) (w w' : World) (e : DiskError)
    → diverges s snap ≡ b
    → w.storage ≡ behind s snap
    → mark_diverging b snap w ≡ (err e, w')
    → IsLeft s snap w'.storage
unfolding mark_diverging mark_truncation buffer_marker behind
mark_IsLeft s snap false w w' e d h r = cc
mark_IsLeft s snap true w w' e d h r =
    let u = record w {
      storage = record w.storage {
        buf = append_frame w.storage.buf (encode_truncate_suffix snap.metadata);
      };
    } in
    let failed = synced_or_failed (sync_buffered true u) w' e r in
    let same : u.storage ≡ marked s snap =
      ap
        (λ (t : Storage). record t {
          buf = append_frame t.buf (encode_truncate_suffix snap.metadata);
        })
        h in
    unmarked d
      (subst (λ t. SameLog t w'.storage) same ((sync_buffered-KeepsOnError true).at u w' e failed))

install_IsLeft :
    (s : Storage) (snap : Snapshot) (p : Outcome DiskError (Unit {0}) × World) (w' : World)
    (e : DiskError)
    → p.1.storage ≡ s
    → resume (λ _. put (behind s snap) >> mark_diverging (diverges s snap) snap) p ≡ (err e, w')
    → IsLeft s snap w'.storage
install_IsLeft s snap (err x, w) w' e h r = unchanged (ap (λ q. q.1.storage) (sym r) ∙ h)
install_IsLeft s snap (ok a, w) w' e h r =
    mark_IsLeft s snap (diverges s snap) (record w { storage = behind s snap }) w' e refl refl r

-- An ApplySnapshot that fails, because the snapshot is stale or at whatever call of the operating
-- system, leaves the store as it was, or, when only the marker of a truncation is not in the log
-- yet, the mirror behind the snapshot with the truncation pending and the marker in the buffer
-- behind the records that were there.
pub apply_snapshot-IsLeft :
    (snap : Snapshot) (w w' : World) (e : DiskError)
    → apply_snapshot snap w ≡ (err e, w')
    → IsLeft w.storage snap w'.storage
unfolding apply_snapshot install
apply_snapshot-IsLeft snap w w' e r = stale (leb snap.metadata.index (offset w.storage)) r
  where
    stale :
        (b : Bool)
        → (if b then fail compacted else install w.storage snap) w ≡ (err e, w')
        → IsLeft w.storage snap w'.storage
    stale true r = unchanged (ap (λ q. q.1.storage) (sym r))
    stale false r =
        install_IsLeft w.storage snap (write_snapshot_file snap (diverges w.storage snap) w) w' e
          ((write_snapshot_file-IsApart snap (diverges w.storage snap)).at w) r
