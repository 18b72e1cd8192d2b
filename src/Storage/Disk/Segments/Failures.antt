-- ===== src/Storage/Disk/Segments/Failures.antt =====
-- storage/disk/wal.go, Sync: what a failed call leaves.
use parallax_kv.Base.{
  ℕ, ◌≡◌, refl, sym, ap, ◌∙◌, Bool, true, false, not, Option, none, some, Bytes, Outcome, ok, err,
  length, ◌==◌, nat_eq, bytes_eq, if◌then◌else◌, subst,
}
use parallax_kv.Storage.Disk.{Storage, DiskError, io_error}
use parallax_kv.Storage.Disk.Os.{
  World, M, ◌>>=◌, ◌>>◌, resume, pure, fail, get, put, write, sync, no_op, fsync_dir,
}
use parallax_kv.Storage.Disk.Os.Apart.{
  IsApart, no_op-IsApart, sync_names-IsApart, create-IsApart, sync-IsApart, write-IsApart,
}
use parallax_kv.Storage.Disk.Segments.{
  segment_name, close_active, close_named, activate, rotate_segment, rotate_full, on_seg, wrote,
  write_buffer, sync_buffered, sync_batch,
}
use parallax_kv.Storage.Disk.Log.Mirror.{mem_of}

-- `t` has the log, and the records still to be written, of `s`.
pub record SameLog (s t : Storage) : Type 0 where
  pub same : mem_of t ≡ mem_of s
  pub buffer : t.buf ≡ s.buf
  pub pending : t.snapshot_truncation_pending ≡ s.snapshot_truncation_pending

SameLog-refl : (s : Storage) → SameLog s s
SameLog-refl s = record { same = refl; buffer = refl; pending = refl }

SameLog-trans : {s t u : Storage} → SameLog s t → SameLog t u → SameLog s u
SameLog-trans h k = record {
  same = k.same ∙ h.same;
  buffer = k.buffer ∙ h.buffer;
  pending = k.pending ∙ h.pending;
}

-- whether it fails or not
record Keeps {ℓ} {A : Type ℓ} (m : M A) : Type ℓ where
  at : (w : World) → SameLog w.storage (m w).1.storage

-- if it fails
pub record KeepsOnError {ℓ} {A : Type ℓ} (m : M A) : Type ℓ where
  pub at : (w w' : World) (e : DiskError) → m w ≡ (err e, w') → SameLog w.storage w'.storage

module _ {ℓ κ} {A : Type ℓ} {B : Type κ} where
  resume-Keeps :
      (f : A → M B) (p : Outcome DiskError A × World) (s : Storage)
      → ((a : A) → Keeps (f a))
      → SameLog s p.1.storage
      → SameLog s (resume f p).1.storage
  resume-Keeps f (ok a, w) s hf h = SameLog-trans h ((hf a).at w)
  resume-Keeps f (err e, w) s hf h = h

  bind-Keeps : (m : M A) (f : A → M B) → Keeps m → ((a : A) → Keeps (f a)) → Keeps (m >>= f)
  bind-Keeps m f hm hf = record { at = λ w. resume-Keeps f (m w) w.storage hf (hm.at w) }

  resume-KeepsOnError :
      (f : A → M B) (p : Outcome DiskError A × World) (s : Storage) (w' : World) (e : DiskError)
      → ((a : A) → KeepsOnError (f a))
      → SameLog s p.1.storage
      → resume f p ≡ (err e, w')
      → SameLog s w'.storage
  resume-KeepsOnError f (ok a, w) s w' e hf h r = SameLog-trans h ((hf a).at w w' e r)
  resume-KeepsOnError f (err x, w) s w' e hf h r =
      subst (λ (v : World). SameLog s v.storage) (ap (λ p. p.1) r) h

  bind-KeepsOnError :
      (m : M A) (f : A → M B) → Keeps m → ((a : A) → KeepsOnError (f a)) → KeepsOnError (m >>= f)
  bind-KeepsOnError m f hm hf = record {
    at = λ w w' e r. resume-KeepsOnError f (m w) w.storage w' e hf (hm.at w) r;
  }

Keeps-KeepsOnError {ℓ} : {A : Type ℓ} (m : M A) → Keeps m → KeepsOnError m
Keeps-KeepsOnError m h = record {
  at = λ w w' e r. subst (λ (v : World). SameLog w.storage v.storage) (ap (λ p. p.1) r) (h.at w);
}

apart-Keeps {ℓ} : {A : Type ℓ} {m : M A} → IsApart m → Keeps m
apart-Keeps h = record {
  at = λ w. subst (SameLog w.storage) (sym (h.at w)) (SameLog-refl w.storage);
}

pure-Keeps {ℓ} : {A : Type ℓ} (a : A) → Keeps (pure a)
pure-Keeps a = record { at = λ w. SameLog-refl w.storage }

fail-Keeps {ℓ} : {A : Type ℓ} (e : DiskError) → Keeps {A = A} (fail e)
fail-Keeps e = record { at = λ w. SameLog-refl w.storage }

get-Keeps : Keeps get
get-Keeps = record { at = λ w. SameLog-refl w.storage }

if-Keeps : (b : Bool) (m n : M (Unit {0})) → Keeps m → Keeps n → Keeps (if b then m else n)
if-Keeps true m n hm hn = hm
if-Keeps false m n hm hn = hn

-- a change of the fields of the active segment
segment-Keeps :
    (f : Storage → Storage) → ((s : Storage) → SameLog s (f s)) → Keeps (get >>= λ s. put (f s))
segment-Keeps f h = record { at = λ w. h w.storage }

ruleset keeping = (
  bind-Keeps, apart-Keeps, pure-Keeps, fail-Keeps, get-Keeps, if-Keeps, no_op-IsApart,
  create-IsApart, sync-IsApart, sync_names-IsApart, write-IsApart,
)

fsync_dir-Keeps : Keeps fsync_dir
unfolding fsync_dir
fsync_dir-Keeps = search keeping depth 8

close_named-Keeps : (o : Option Bytes) → Keeps (close_named o)
unfolding close_named
close_named-Keeps none = pure-Keeps tt
close_named-Keeps (some n) = bind-Keeps no_op _ (apart-Keeps no_op-IsApart) λ _.
    segment-Keeps (λ s. record s { seg = none })
      λ s. record { same = refl; buffer = refl; pending = refl }

activate-Keeps : (k : ℕ) → Keeps (activate k)
unfolding activate
activate-Keeps k =
    segment-Keeps (λ s. record s { seg = some (segment_name k); seg_size = 0; seg_seq = k })
      λ s. record { same = refl; buffer = refl; pending = refl }

rotate_segment-Keeps : (k : ℕ) → Keeps (rotate_segment k)
unfolding rotate_segment close_active
rotate_segment-Keeps k =
    search (keeping, close_named-Keeps, activate-Keeps, fsync_dir-Keeps) depth 12

rotate_full-Keeps : Keeps rotate_full
unfolding rotate_full
rotate_full-Keeps = search (keeping, rotate_segment-Keeps) depth 8

on_seg-Keeps :
    (f : Bytes → M (Unit {0})) (o : Option Bytes) → ((n : Bytes) → Keeps (f n)) → Keeps (on_seg f o)
unfolding on_seg
on_seg-Keeps f none h = fail-Keeps io_error
on_seg-Keeps f (some n) h = h n

wrote-KeepsOnError : KeepsOnError wrote
unfolding wrote
wrote-KeepsOnError = record { at = λ w w' e r. cc }

write_buffer-KeepsOnError : (durable : Bool) → KeepsOnError (write_buffer durable)
unfolding write_buffer
write_buffer-KeepsOnError durable = bind-KeepsOnError get _ get-Keeps λ s.
    bind-KeepsOnError (on_seg (λ n. write n s.buf) s.seg) _
      (on_seg-Keeps _ s.seg λ n. apart-Keeps (write-IsApart n s.buf))
      λ _.
        bind-KeepsOnError (if durable then on_seg sync s.seg else pure tt) _
          (if-Keeps durable _ _ (on_seg-Keeps sync s.seg λ n. apart-Keeps (sync-IsApart n))
            (pure-Keeps tt))
          λ _. wrote-KeepsOnError

flush-KeepsOnError :
    (empty durable : Bool)
    → KeepsOnError (if empty then pure tt else rotate_full >> write_buffer durable)
flush-KeepsOnError true durable = Keeps-KeepsOnError (pure tt) (pure-Keeps tt)
flush-KeepsOnError false durable =
    bind-KeepsOnError rotate_full _ rotate_full-Keeps λ _. write_buffer-KeepsOnError durable

pub sync_buffered-KeepsOnError : (durable : Bool) → KeepsOnError (sync_buffered durable)
unfolding sync_buffered
sync_buffered-KeepsOnError durable =
    bind-KeepsOnError get _ get-Keeps λ s. flush-KeepsOnError (length s.buf == 0) durable

-- A Sync that fails, at whatever call of the operating system, leaves the log, the hard state and
-- the snapshot of the store as they were, and all records that were to be written in the buffer.
pub sync_batch-SameLog :
    (w w' : World) (e : DiskError) → sync_batch w ≡ (err e, w') → SameLog w.storage w'.storage
unfolding sync_batch
sync_batch-SameLog w w' e r = (sync_buffered-KeepsOnError (not w.storage.no_sync)).at w w' e r
