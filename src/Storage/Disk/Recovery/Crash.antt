-- ===== src/Storage/Disk/Recovery/Crash.antt =====
-- storage/disk/wal.go: Open behind a crash of the machine.
use parallax_kv.Base.{
  ℕ, ◌+◌, ◌-◌, ◌≡◌, refl, sym, ap, ◌∙◌, subst, false, Option, none, some, List, [], ◌++◌,
  append_assoc, append-nil, Bytes, ok, arith, length, take, take_all, take-append_beyond, bytes_eq,
  sort_by, bytes_leb,
}
use parallax_kv.Base.GoMap
use parallax_kv.Storage.Disk.{Storage, new}
use parallax_kv.Storage.Disk.Os.{File}
use parallax_kv.Storage.Disk.Os.Calm.{Directory, calm, keys-put_held, put-put}
use parallax_kv.Storage.Disk.Segments.{segment_name, is_segment, select}
use parallax_kv.Storage.Disk.Snapshots.{is_snapshot}
use parallax_kv.Storage.Disk.Records.Redo.{
  Record, AllSound, AllSound-append, AllSound-split, IsReplay, redo_all, redo_all-append,
  redo_all-split, redo_all-IsReplay, log_bytes, log_bytes-append,
}
use parallax_kv.Storage.Disk.Wal.{replay, open_storage}
use parallax_kv.Storage.Disk.Wal.Replay.{Recovers, replay-Recovers, left_behind}
use parallax_kv.Storage.Disk.Log.Logged.{IsLogged}
use parallax_kv.Storage.Disk.Recovery.{records, IsDurable, durable_file}
use parallax_kv.Storage.Disk.Recovery.Open.{open_storage-calm, cut_directory, cut_file, opened}
use parallax_kv.Storage.Disk.Recovery.Written.{put_active-IsLog, AllHeld-put}

-- The file behind a crash of the machine: what an fsync covers, and the first m bytes behind it
-- of what was being written.
abbrev surviving : File → Bytes → ℕ → File
surviving f buf m = durable_file (take f.synced f.content ++ take m buf)

abbrev survivors : Directory → Bytes → Option File → Bytes → ℕ → Directory
survivors d n none buf m = d
survivors d n (some f) buf m = GoMap.put d n (surviving f buf m)

-- The directory behind a crash, at any moment up to the end of a Sync without a rotation.
abbrev pub crash_image : Storage → Directory → ℕ → Directory
crash_image s d m = elim s.seg [ none ↦ d | some n ↦ survivors d n (GoMap.get d n) s.buf m ]

crash_image-active :
    (s : Storage) (d : Directory) (m : ℕ) (h : IsDurable s d)
    → crash_image s d m
      ≡ GoMap.put d (segment_name h.seq) (durable_file (log_bytes h.safe ++ take m s.buf))
crash_image-active s d m h =
    let n = segment_name h.seq in
    let bytes = log_bytes h.safe in
    ap (λ o. elim o [ none ↦ d | some n ↦ survivors d n (GoMap.get d n) s.buf m ]) h.seg
    ∙ ap (λ o. survivors d n o s.buf m) h.log.active
    ∙ ap (λ x. GoMap.put d n (durable_file (x ++ take m s.buf))) (take_all bytes)

-- The bytes that survive are a cut of the log behind its durable records.
surviving_bytes :
    (safe pending : List Record) (buf : Bytes) (m : ℕ)
    → buf ≡ log_bytes pending
    → log_bytes safe ++ take m buf
      ≡ take (length (log_bytes safe) + m) (log_bytes (safe ++ pending))
surviving_bytes safe pending buf m h =
    ap (λ b. log_bytes safe ++ take m b) h
    ∙ ap (λ k. log_bytes safe ++ take k (log_bytes pending))
        {y = length (log_bytes safe) + m - length (log_bytes safe)} (omega arith)
    ∙ sym (
        take-append_beyond (length (log_bytes safe) + m) (log_bytes safe) (log_bytes pending)
          (omega arith))
    ∙ ap (take (length (log_bytes safe) + m)) (sym (log_bytes-append safe pending))

cut_durable :
    (content : Bytes) (torn : Option ℕ)
    → cut_file (durable_file content) torn ≡ durable_file (left_behind torn content)
cut_durable content none = refl
cut_durable content (some off) = refl

cut_image :
    (d : Directory) (n content : Bytes) (torn : Option ℕ)
    → cut_directory (GoMap.put d n (durable_file content)) n (durable_file content) torn
      ≡ GoMap.put d n (durable_file (left_behind torn content))
cut_image d n content none = refl
cut_image d n content (some off) = put-put d n _ _

-- `s'` in `d'` holds the records `safe`, and the first ones of `pending`, and they are the records
-- of its files, which all survive a crash.
pub record Reopens (safe pending : List Record) (s' : Storage) (d' : Directory) : Type 0 where
  pub durable : IsDurable s' d'
  pub buffer : s'.buf ≡ []
  pub mode : s'.no_sync ≡ false
  pub kept : List Record
  pub lost : List Record
  pub splits : pending ≡ kept ++ lost
  pub on_disk : records durable.older ++ durable.safe ≡ safe ++ kept
  pub none_buffered : durable.pending ≡ []
  pub replayed :
      redo_all new (safe ++ kept)
      ≡ ok (record new { hard_state = s'.hard_state; entries = s'.entries })

-- The replay of all segments, cut anywhere behind the durable records.
pub record IsRebuilt (older : List Record) (safe pending : List Record) (content : Bytes)
    : Type 0 where
  pub start : Storage
  pub before : redo_all new older ≡ ok start
  pub out : Recovers start safe pending content
  pub all : redo_all new ((older ++ safe) ++ out.kept) ≡ ok (replay start content).mirror
  pub form : IsReplay new (replay start content).mirror

rebuild :
    (older safe pending : List Record) (buf : Bytes) (m : ℕ) (s : Storage)
    → buf ≡ log_bytes pending
    → IsLogged new s ((older ++ safe) ++ pending)
    → IsRebuilt older safe pending (log_bytes safe ++ take m buf)
unfolding new
rebuild older safe pending buf m s b h =
    let three = append_assoc older safe pending in
    let (t, before, after) =
      redo_all-split new _ older (safe ++ pending) (ap (redo_all new) (sym three) ∙ h.replayed) in
    let sound = (AllSound-split older (safe ++ pending) (subst AllSound three h.sound)).1 in
    let n = length (log_bytes safe) + m in
    let cut : Recovers t safe pending (log_bytes safe ++ take m buf) =
      subst (Recovers t safe pending) (sym (surviving_bytes safe pending buf m b))
        (replay-Recovers t _ safe pending n sound after (omega arith)) in
    let whole =
      ap (redo_all new) (append_assoc older safe cut.kept)
      ∙ redo_all-append new t older (safe ++ cut.kept) before
      ∙ cut.mirror in
    record {
      start = t;
      before = before;
      out = cut;
      all = whole;
      form = redo_all-IsReplay new _ ((older ++ safe) ++ cut.kept) refl whole;
    }

-- the store and the directory behind Open
abbrev reopened : Storage → ℕ → Bytes → Option ℕ → Storage
reopened out seq content torn = opened out seq (cut_file (durable_file content) torn)

abbrev rewritten : Directory → ℕ → List Record → Directory
rewritten d seq safe = GoMap.put d (segment_name seq) (durable_file (log_bytes safe))

rebuilt-Reopens :
    (s : Storage) (d : Directory) (content : Bytes) (h : IsDurable s d)
    → (r : IsRebuilt (records h.older) h.safe h.pending content)
    → Reopens
        (records h.older ++ h.safe)
        h.pending
        (reopened (replay r.start content).mirror h.seq content (replay r.start content).torn)
        (rewritten d h.seq (h.safe ++ r.out.kept))
unfolding log_bytes new
rebuilt-Reopens s d content h r =
    let safe' = h.safe ++ r.out.kept in
    let sound = AllSound-split (records h.older ++ h.safe) h.pending h.logged.sound in
    let sound_kept = AllSound-split r.out.kept r.out.lost (subst AllSound r.out.splits sound.1) in
    let regroup = append_assoc (records h.older) h.safe r.out.kept in
    let no_more = append-nil (records h.older ++ safe') in
    record {
      durable = record {
        older = h.older;
        seq = h.seq;
        safe = safe';
        pending = [];
        log = put_active-IsLog d h.older h.seq h.safe safe' h.log;
        seg = refl;
        seg_seq = refl;
        buffer = ap (λ (t : Storage). t.buf) r.form.rest;
        logged = record {
          snapshot = ap (λ (t : Storage). t.snapshot) r.form.rest;
          replayed = ap (redo_all new) (no_more ∙ sym regroup) ∙ r.all ∙ ap ok r.form.rest;
          sound =
              subst AllSound (regroup ∙ sym no_more)
                (AllSound-append (records h.older ++ h.safe) r.out.kept sound.0 sound_kept.0);
        };
        settled = r.form.settled;
      };
      buffer = ap (λ (t : Storage). t.buf) r.form.rest;
      mode = ap (λ (t : Storage). t.no_sync) r.form.rest;
      kept = r.out.kept;
      lost = r.out.lost;
      splits = r.out.splits;
      on_disk = sym regroup;
      none_buffered = refl;
      replayed = r.all ∙ ap ok r.form.rest;
    }

-- Open behind a crash of the machine, which has left any number of bytes of the write that was
-- under way, returns no error. The store that it returns holds the records that the files held,
-- and the first ones of those that the buffer held, in their order; it is well-formed again, and
-- the records of its segment files are those, in that order, and no others. The store is
-- well-formed before, which excludes that a snapshot has been taken, and no call of the operating
-- system fails while Open runs.
pub open_storage-Reopens :
    (s : Storage) (d : Directory) (m : ℕ) (h : IsDurable s d)
    → (s' : Storage) × (d' : Directory) × (open_storage
          (record { directory = crash_image s d m; faults = []; unsynced = [] })
        ≡ (ok tt, calm s' d'))
      × Reopens (records h.older ++ h.safe) h.pending s' d'
open_storage-Reopens s d m h =
    let n = segment_name h.seq in
    let content = log_bytes h.safe ++ take m s.buf in
    let f = durable_file content in
    let r = rebuild (records h.older) h.safe h.pending s.buf m s h.buffer h.logged in
    let out = replay r.start content in
    let keys = keys-put_held d n f _ h.log.active in
    let sound = (AllSound-split (records h.older ++ h.safe) h.pending h.logged.sound).0 in
    let s' = reopened out.mirror h.seq content out.torn in
    let run =
      open_storage-calm (GoMap.put d n f) h.older h.seq r.start f
        (ap (select is_snapshot) keys ∙ h.log.no_snapshots)
        (ap (λ ks. sort_by bytes_leb (select is_segment ks)) keys ∙ h.log.listed)
        (AllHeld-put d n f h.older h.log.apart h.log.held)
        (AllSound-split (records h.older) h.safe sound).0 r.before (GoMap.get-put_self d n f)
        h.log.word r.form.settled in
    (
      s',
      rewritten d h.seq (h.safe ++ r.out.kept),
      ap (λ e. open_storage (record { directory = e; faults = []; unsynced = [] }))
            (crash_image-active s d m h)
          ∙ run
          ∙ ap (λ e. (ok tt, calm s' e))
              (cut_image d n content out.torn
                ∙ ap (λ b. GoMap.put d n (durable_file b)) r.out.left),
      rebuilt-Reopens s d content h r,
    )
