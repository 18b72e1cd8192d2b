-- ===== src/Storage/Disk/Recovery/Sync.antt =====
-- storage/disk/wal.go, Sync: the buffer is in the files, in a directory whose calls all work.
use parallax_kv.Base.{
  ℕ, ◌+◌, ◌^◌, ◌<◌, ◌≡◌, refl, sym, ap, ◌∙◌, subst, true, false, not, none, some, List, [], ◌∷◌,
  ◌++◌, append_assoc, append-nil, Bytes, ok, arith, length, add64, leb, ◌==◌, nat_eq, bytes_eq,
  Bool-cases, inl, inr,
}
use parallax_kv.Base.GoMap
use parallax_kv.Storage.Mem
use parallax_kv.Storage.Disk.{Storage, new}
use parallax_kv.Storage.Disk.Os.{File, ◌>>=◌, ◌>>◌, get, put, create, write, sync, no_op, fsync_dir}
use parallax_kv.Storage.Disk.Os.Calm.{
  Directory, calm, no_op-calm, fsync_dir-renamed, create-calm, write-calm, sync-calm, >>-ok,
  put-put,
}
use parallax_kv.Storage.Disk.Segments.{
  segment_name, max_segment_size, close_active, rotate_segment, rotate_full, on_seg, wrote,
  close_named, write_buffer, sync_buffered, sync_batch, activate,
}
use parallax_kv.Storage.Disk.Records.Redo.{Record, log_bytes, log_bytes-append}
use parallax_kv.Storage.Disk.Log.Mirror.{mem_of}
use parallax_kv.Storage.Disk.Log.Logged.{IsLogged}
use parallax_kv.Storage.Disk.Recovery.{records, IsDurable, durable_file}
use parallax_kv.Storage.Disk.Recovery.Written.{
  put_active-IsLog, with_segment, with_segment-IsLog, records-append,
}

-- the store behind a rotation
abbrev rotated : Storage → ℕ → Storage
rotated s k = record s { seg = some (segment_name k); seg_size = 0; seg_seq = k }

close_active-calm :
    (s : Storage) (d : Directory) (n : Bytes)
    → s.seg ≡ some n
    → close_active (calm s d) ≡ (ok tt, calm (record s { seg = none }) d)
unfolding close_active close_named
close_active-calm s d n h =
    ap (λ o. close_named o (calm s d)) h
    ∙ >>-ok no_op (get >>= λ s. put (record s { seg = none })) (no_op-calm s d)

rotate_segment-calm :
    (s : Storage) (d : Directory) (n : Bytes) (k : ℕ)
    → s.seg ≡ some n
    → GoMap.get d (segment_name k) ≡ none
    → rotate_segment k (calm s d) ≡ (ok tt, calm (rotated s k) (with_segment d k))
unfolding rotate_segment activate
rotate_segment-calm s d n k open_seg free =
    let closed = record s { seg = none } in
    >>-ok close_active (create (segment_name k) >> (activate k >> fsync_dir))
      (close_active-calm s d n open_seg)
    ∙ >>-ok (create (segment_name k)) (activate k >> fsync_dir)
        (create-calm closed d (segment_name k) free)
    ∙ fsync_dir-renamed (rotated s k) (with_segment d k) (segment_name k ∷ [])

-- the store behind a write
abbrev flushed : Storage → Storage
flushed s = record s { seg_size = s.seg_size + length s.buf; buf = [] }

write_buffer-calm :
    (s : Storage) (d : Directory) (n : Bytes) (f : File)
    → s.seg ≡ some n
    → GoMap.get d n ≡ some f
    → write_buffer true (calm s d)
      ≡ (ok tt, calm (flushed s) (GoMap.put d n (durable_file (f.content ++ s.buf))))
unfolding write_buffer on_seg wrote
write_buffer-calm s d n f open_seg held =
    let f' : File = record f { content = f.content ++ s.buf } in
    let d' = GoMap.put d n f' in
    >>-ok (on_seg (λ name. write name s.buf) s.seg) (on_seg sync s.seg >> wrote) (
      ap (λ o. on_seg (λ name. write name s.buf) o (calm s d)) open_seg
      ∙ write-calm s d n f held s.buf)
    ∙ >>-ok (on_seg sync s.seg) wrote (
        ap (λ o. on_seg sync o (calm s d')) open_seg
        ∙ sync-calm s d' n f' (GoMap.get-put_self d n f')
        ∙ ap (λ e. (ok tt, calm s e)) (put-put d n _ _))

-- A change of the fields that the log does not depend on.
same_log :
    (b s : Storage) (rs : List Record) {s' : Storage}
    → mem_of s' ≡ mem_of s
    → IsLogged b s rs
    → IsLogged b s' rs
same_log b s rs same h = record {
  snapshot = ap (λ m. m.snapshot) same ∙ h.snapshot;
  replayed =
      h.replayed
      ∙ ap (λ (m : Mem.Storage). ok (record b { hard_state = m.hard_state; entries = m.entries }))
          (sym same);
  sound = h.sound;
}

-- The write of the buffer makes its records durable.
write_buffer-IsDurable :
    (s : Storage) (d : Directory)
    → IsDurable s d
    → (d' : Directory) × (write_buffer true (calm s d) ≡ (ok tt, calm (flushed s) d'))
      × IsDurable (flushed s) d'
unfolding log_bytes
write_buffer-IsDurable s d h =
    let n = segment_name h.seq in
    let bytes : log_bytes h.safe ++ s.buf ≡ log_bytes (h.safe ++ h.pending) =
      ap (λ b. log_bytes h.safe ++ b) h.buffer ∙ sym (log_bytes-append h.safe h.pending) in
    (
      GoMap.put d n (durable_file (log_bytes (h.safe ++ h.pending))),
      write_buffer-calm s d n _ h.seg h.log.active
          ∙ ap (λ b. (ok tt, calm (flushed s) (GoMap.put d n (durable_file b)))) bytes,
      record {
        older = h.older;
        seq = h.seq;
        safe = h.safe ++ h.pending;
        pending = [];
        log = put_active-IsLog d h.older h.seq h.safe (h.safe ++ h.pending) h.log;
        seg = h.seg;
        seg_seq = h.seg_seq;
        buffer = refl;
        logged =
            subst (IsLogged new (flushed s))
              (append_assoc (records h.older) h.safe h.pending
                ∙ sym (append-nil (records h.older ++ (h.safe ++ h.pending))))
              (same_log new s _ refl h.logged);
        settled = h.settled;
      },
    )

-- A rotation keeps the records, with an empty segment to write to.
rotate_segment-IsDurable :
    (s : Storage) (d : Directory) (h : IsDurable s d)
    → h.seq + 1 < 2 ^ 64
    → (rotate_segment (add64 s.seg_seq 1) (calm s d)
        ≡ (ok tt, calm (rotated s (h.seq + 1)) (with_segment d (h.seq + 1))))
      × IsDurable (rotated s (h.seq + 1)) (with_segment d (h.seq + 1))
rotate_segment-IsDurable s d h word =
    let k = h.seq + 1 in
    let full = h.older ++ (segment_name h.seq, h.safe) ∷ [] in
    let free = h.log.fresh k (omega arith) word in
    (
      ap (λ j. rotate_segment j (calm s d)) {y = k} (omega (arith, h.seg_seq))
          ∙ rotate_segment-calm s d (segment_name h.seq) k h.seg free.absent,
      record {
        older = full;
        seq = k;
        safe = [];
        pending = h.pending;
        log = with_segment-IsLog d h.older h.seq h.safe h.log word;
        seg = refl;
        seg_seq = refl;
        buffer = h.buffer;
        logged =
            subst (IsLogged new (rotated s k))
              (ap (λ l. l ++ h.pending)
                (sym (
                  append-nil (records full)
                  ∙ records-append h.older ((segment_name h.seq, h.safe) ∷ [])
                  ∙ ap (λ l. records h.older ++ l) (append-nil h.safe))))
              (same_log new s _ refl h.logged);
        settled = h.settled;
      },
    )

-- `s'` in `d'` is `s` behind a Sync: its log is the same, its buffer is empty and the records are
-- all in the files.
pub record IsSynced (s s' : Storage) (d' : Directory) : Type 0 where
  pub durable : IsDurable s' d'
  pub buffer : s'.buf ≡ []
  pub same : mem_of s' ≡ mem_of s
  pub mode : s'.no_sync ≡ s.no_sync

-- the rotation, if one is due
pub rotate_full-IsDurable :
    (s : Storage) (d : Directory) (h : IsDurable s d)
    → h.seq + 1 < 2 ^ 64
    → (t : Storage) × (e : Directory) × (rotate_full (calm s d) ≡ (ok tt, calm t e))
      × IsDurable t e
      × (mem_of t ≡ mem_of s)
      × (t.no_sync ≡ s.no_sync)
unfolding rotate_full
rotate_full-IsDurable s d h word = elim (Bool-cases (leb max_segment_size s.seg_size)) [
  | inl full ↦
      let (done, durable) = rotate_segment-IsDurable s d h word in
      (rotated s (h.seq + 1), with_segment d (h.seq + 1), rw full done, durable, refl, refl)
  | inr room ↦ (s, d, rw room refl, h, refl, refl)
]

written :
    (s : Storage) (d : Directory) (h : IsDurable s d)
    → h.seq + 1 < 2 ^ 64
    → (s' : Storage) × (d' : Directory) × ((rotate_full >> write_buffer true) (calm s d)
        ≡ (ok tt, calm s' d'))
      × IsSynced s s' d'
written s d h word =
    let (t, e, rotation, durable, same, mode) = rotate_full-IsDurable s d h word in
    let (d', write, all) = write_buffer-IsDurable t e durable in
    (
      flushed t,
      d',
      >>-ok rotate_full (write_buffer true) rotation ∙ write,
      record { durable = all; buffer = refl; same = same; mode = mode },
    )

length_nil : (xs : Bytes) → (length xs == 0) ≡ true → xs ≡ []
length_nil [] h = refl
length_nil (x ∷ xs) h = ground arith

-- the durable write of the buffer, if there is one
sync_buffered-IsSynced :
    (s : Storage) (d : Directory) (h : IsDurable s d)
    → h.seq + 1 < 2 ^ 64
    → (s' : Storage) × (d' : Directory) × (sync_buffered true (calm s d) ≡ (ok tt, calm s' d'))
      × IsSynced s s' d'
unfolding sync_buffered
sync_buffered-IsSynced s d h word = elim (Bool-cases (length s.buf == 0)) [
  | inl empty ↦ (
    s,
    d,
    rw empty refl,
    record { durable = h; buffer = length_nil s.buf empty; same = refl; mode = refl },
  )
  | inr filled ↦ let (s', d', done, synced) = written s d h word in (s', d', rw filled done, synced)
]

-- Sync of a store in the durable mode returns no error, and leaves all records of the log in
-- files that an fsync covers, whether or not it goes on to a new segment.
pub sync_batch-IsSynced :
    (s : Storage) (d : Directory) (h : IsDurable s d)
    → s.no_sync ≡ false
    → h.seq + 1 < 2 ^ 64
    → (s' : Storage) × (d' : Directory) × (sync_batch (calm s d) ≡ (ok tt, calm s' d'))
      × IsSynced s s' d'
unfolding sync_batch
sync_batch-IsSynced s d h mode word =
    let (s', d', done, synced) = sync_buffered-IsSynced s d h word in
    (s', d', ap (λ b. sync_buffered (not b) (calm s d)) mode ∙ done, synced)
