-- ===== src/Storage/Disk/Segments/Flushed.antt =====
-- storage/disk/wal.go, Sync: what it has done when it returns no error, also where later calls fail.
use parallax_kv.Base.{
  ◌≡◌, ◌≢◌, refl, sym, ap, ◌∙◌, Bool, true, false, not, Option, none, some, [], ◌∷◌, Bytes,
  bytes_eq, ok, length, ◌==◌, nat_eq, if◌then◌else◌, arith,
}
use parallax_kv.Storage.Disk.{Storage}
use parallax_kv.Storage.Disk.Os.{World, M, ◌>>◌, pure, write, sync}
use parallax_kv.Base.GoMap
use parallax_kv.Storage.Disk.Os.Apart.{write-IsApart}
use parallax_kv.Storage.Disk.Os.Synced.{>>=-eq-ok, AllSynced, sync-AllSynced}
use parallax_kv.Storage.Disk.Segments.{
  on_seg, rotate_full, wrote, write_buffer, sync_buffered, sync_batch,
}

-- An fsync covers all that the active segment holds.
abbrev pub ActiveSynced : World → Type 0
ActiveSynced w = (name : Bytes) × (w.storage.seg ≡ some name) × AllSynced name w

-- No record is left in the buffer, and if there was one, and the store issues fsyncs, an fsync has
-- covered the active segment behind it.
pub record IsFlushed (u w : World) : Type 0 where
  pub buffer : w.storage.buf ≡ []
  pub covers : u.storage.no_sync ≡ false → u.storage.buf ≢ [] → ActiveSynced w

empty_list : (xs : Bytes) → (length xs == 0) ≡ true → xs ≡ []
empty_list [] h = refl
empty_list (x ∷ xs) h = absurd (ground arith)

on_seg-some :
    (f : Bytes → M (Unit {0})) (o : Option Bytes) (w w' : World)
    → on_seg f o w ≡ (ok tt, w')
    → (name : Bytes) × (o ≡ some name) × (f name w ≡ (ok tt, w'))
unfolding on_seg
on_seg-some f none w w' h = cc
on_seg-some f (some name) w w' h = (name, refl, h)

-- the fsync, if there is one, and the reset of the buffer
closing :
    (durable : Bool) (o : Option Bytes) (u w : World)
    → u.storage.seg ≡ o
    → ((if durable then on_seg sync o else pure tt) >> wrote) u ≡ (ok tt, w)
    → (w.storage.buf ≡ []) × (durable ≡ true → ActiveSynced w)
unfolding wrote
closing false o u w open_seg h = (ap (λ p. p.1.storage.buf) (sym h), λ no. cc)
closing true o u w open_seg h =
    let (t, v, synced, h1) = >>=-eq-ok (on_seg sync o) (λ _. wrote) u h in
    let (name, is, ran) = on_seg-some sync o u v synced in
    let (same, at) = sync-AllSynced name u v ran in
    let (f, there, all) = at in
    let left = ap (λ p. p.1) (sym h1) in
    (
      ap (λ (x : World). x.storage.buf) left,
      λ yes. (
        name,
        ap (λ (x : World). x.storage.seg) left ∙ ap (λ (x : Storage). x.seg) same ∙ open_seg ∙ is,
        (f, ap (λ (x : World). GoMap.get x.os.directory name) left ∙ there, all),
      ),
    )

write_buffer-closing :
    (durable : Bool) (u w : World)
    → write_buffer durable u ≡ (ok tt, w)
    → (w.storage.buf ≡ []) × (durable ≡ true → ActiveSynced w)
unfolding write_buffer
write_buffer-closing durable u w h =
    let (t, v, written, h1) =
      >>=-eq-ok (on_seg (λ name. write name u.storage.buf) u.storage.seg) _ u h in
    let (name, is, ran) =
      on_seg-some (λ name. write name u.storage.buf) u.storage.seg u v written in
    let same : v.storage ≡ u.storage =
      ap (λ p. p.1.storage) (sym ran) ∙ (write-IsApart name u.storage.buf).at u in
    closing durable u.storage.seg v w (ap (λ (x : Storage). x.seg) same) h1

flushing :
    (b durable : Bool) (u w : World)
    → (length u.storage.buf == 0) ≡ b
    → (if b then pure tt else rotate_full >> write_buffer durable) u ≡ (ok tt, w)
    → (w.storage.buf ≡ []) × (durable ≡ true → u.storage.buf ≢ [] → ActiveSynced w)
flushing true durable u w empty h =
    let none_left = empty_list u.storage.buf empty in
    (ap (λ p. p.1.storage.buf) (sym h) ∙ none_left, λ yes some_left. absurd (some_left none_left))
flushing false durable u w full h =
    let (t, v, rotated, h1) = >>=-eq-ok rotate_full (λ _. write_buffer durable) u h in
    let (none_left, covers) = write_buffer-closing durable v w h1 in
    (none_left, λ yes some_left. covers yes)

pub sync_batch-IsFlushed : (u w : World) → sync_batch u ≡ (ok tt, w) → IsFlushed u w
unfolding sync_batch sync_buffered
sync_batch-IsFlushed u w h =
    let (none_left, covers) =
      flushing (length u.storage.buf == 0) (not u.storage.no_sync) u w refl h in
    record { buffer = none_left; covers = λ on. covers (ap not on) }
