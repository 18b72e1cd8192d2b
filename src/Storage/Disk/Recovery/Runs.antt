-- ===== src/Storage/Disk/Recovery/Runs.antt =====
-- storage/disk: runs of a store from an empty directory on, without snapshots and without failing
-- calls, with crashes of the machine anywhere.
use parallax_kv.Base.{
  ℕ, ◌+◌, ◌^◌, ◌<◌, ◌≤◌, ◌≡◌, refl, sym, ap, ◌∙◌, subst, bytes_eq, sort_by, insert_by, bytes_leb,
  Outcome, true, false, some, none, List, [], ◌∷◌, ◌++◌, append_assoc, ok, ok-injective, arith,
  length,
}
use mathlib.Core.Option.{some-injective}
use parallax_kv.Base.GoMap
use parallax_kv.Raft.Types.{Entry, HardState}
use parallax_kv.Storage.Mem.Append.{contiguous}
use parallax_kv.Storage.Disk.{Storage, DiskError, new, offset}
use parallax_kv.Storage.Disk.Os.{World, empty_file}
use parallax_kv.Storage.Disk.Os.Calm.{Directory, calm}
use parallax_kv.Storage.Disk.Segments.{segment_name, rotate_full, sync_batch}
use parallax_kv.Storage.Disk.Segments.Names.{AllBelow, segment_name_ne, bytes_leb-segment_name}
use parallax_kv.Storage.Disk.Records.Redo.{
  Record, set_state, IsSound, AllSound, log_bytes, log_bytes-append, length-log_bytes, redo_all,
}
use parallax_kv.Storage.Disk.Wal.{open_storage}
use parallax_kv.Storage.Disk.Log.{append_entries, set_hard_state}
use parallax_kv.Storage.Disk.Log.Mirror.{mem_of}
use parallax_kv.Storage.Disk.Log.Logged.{
  puts, Logs, IsLogged, append_entries-Logs, set_hard_state-Logs,
}
use parallax_kv.Storage.Disk.Recovery.{records, IsLog, IsDurable}
use parallax_kv.Storage.Disk.Recovery.Written.{with_segment, select_one, not_snapshot}
use parallax_kv.Storage.Disk.Recovery.Sync.{sync_batch-IsSynced, rotate_full-IsDurable}
use parallax_kv.Storage.Disk.Recovery.Crash.{crash_image, Reopens, open_storage-Reopens}

-- An operation that only buffers records.
Logs-IsDurable :
    (s : Storage) (d : Directory) (h : IsDurable s d) (news : List Record) (s' : Storage)
    → Logs new s ((records h.older ++ h.safe) ++ h.pending) news s'
    → IsDurable s' d
Logs-IsDurable s d h news s' l = record {
  older = h.older;
  seq = h.seq;
  safe = h.safe;
  pending = h.pending ++ news;
  log = h.log;
  seg = ap (λ (t : Storage). t.seg) l.rest ∙ h.seg;
  seg_seq = ap (λ (t : Storage). t.seg_seq) l.rest ∙ h.seg_seq;
  buffer =
      l.buffered ∙ ap (λ b. b ++ log_bytes news) h.buffer ∙ sym (log_bytes-append h.pending news);
  logged =
      subst (IsLogged new s') (append_assoc (records h.older ++ h.safe) h.pending news) l.logged;
  settled = ap (λ (t : Storage). t.snapshot_truncation_pending) l.rest ∙ h.settled;
}

-- A store in its directory after a run without snapshots, in which no call fails: Open of an empty
-- directory, then any order of AppendEntries of contiguous entries that leave no gap and can be
-- encoded, SetHardState, Sync with an fsync, and a crash of the machine at any byte of a write, with
-- Open behind it. ApplySnapshot and DisableSync are not in such a run.
pub data Run : Storage → Directory → Type 0 where
  first :
      {s : Storage} {d : Directory}
      → open_storage (record { directory = []; faults = []; unsynced = [] }) ≡ (ok tt, calm s d)
      → Run s d
  append :
      {s s' : Storage} {d : Directory} (e : Entry) (es : List Entry)
      → Run s d
      → AllSound (puts (e ∷ es))
      → contiguous e.index (e ∷ es) ≡ true
      → e.index ≤ offset s + length s.entries + 1
      → append_entries s (e ∷ es) ≡ some (s', none)
      → Run s' d
  set :
      {s : Storage} {d : Directory} (st : HardState)
      → Run s d
      → IsSound (set_state st)
      → Run (set_hard_state s st) d
  sync :
      {s s' : Storage} {d d' : Directory}
      → Run s d
      → s.seg_seq + 1 < 2 ^ 64
      → sync_batch (calm s d) ≡ (ok tt, calm s' d')
      → Run s' d'
  crash :
      {s s' : Storage} {d d' : Directory} (m : ℕ)
      → Run s d
      → open_storage (record { directory = crash_image s d m; faults = []; unsynced = [] })
        ≡ (ok tt, calm s' d')
      → Run s' d'
  -- behind the rotation of a Sync that has not returned
  crash_in_sync :
      {s t s' : Storage} {d e d' : Directory} (m : ℕ)
      → Run s d
      → s.seg_seq + 1 < 2 ^ 64
      → rotate_full (calm s d) ≡ (ok tt, calm t e)
      → open_storage (record { directory = crash_image t e m; faults = []; unsynced = [] })
        ≡ (ok tt, calm s' d')
      → Run s' d'

-- the store that Open makes in an empty directory
abbrev pub first_store : Storage
first_store = record new { seg = some (segment_name 1); seg_size = 0; seg_seq = 1 }

pub open_storage_first :
    open_storage (record { directory = []; faults = []; unsynced = [] })
    ≡ (ok tt, calm first_store (with_segment [] 1))
unfolding open_storage new parallax_kv.Storage.Disk.Os.no_op
    parallax_kv.Storage.Disk.Snapshots.load_latest_snapshot parallax_kv.Storage.Disk.Os.read_dir
    sort_by parallax_kv.Storage.Disk.Segments.select parallax_kv.Storage.Disk.Segments.list_segments
    parallax_kv.Storage.Disk.Wal.replay_segments
    parallax_kv.Storage.Disk.Segments.open_active_segment
    parallax_kv.Storage.Disk.Segments.rotate_segment parallax_kv.Storage.Disk.Segments.close_active
    parallax_kv.Storage.Disk.Os.create GoMap.get parallax_kv.Storage.Disk.Segments.activate
    parallax_kv.Storage.Disk.Os.fsync_dir
open_storage_first = refl

first-IsLog : IsLog (with_segment [] 1) [] 1 []
unfolding log_bytes sort_by insert_by GoMap.put
first-IsLog = record {
  listed = ap (sort_by bytes_leb) (select_one 1);
  held = tt;
  active = GoMap.get-put_self [] (segment_name 1) empty_file;
  apart = tt;
  fresh = λ k above word. record {
    absent =
        GoMap.get-put_ne [] (segment_name 1) empty_file (segment_name k)
          (segment_name_ne 1 k (omega arith) word above)
        ∙ unfold GoMap.get in refl;
    above =
        subst (AllBelow (segment_name k)) (sym (select_one 1))
          (bytes_leb-segment_name 1 k (omega arith) word ∙ ground arith, tt);
  };
  word = omega arith;
  no_snapshots = not_snapshot 1;
}

first-IsDurable : IsDurable first_store (with_segment [] 1)
unfolding new log_bytes redo_all
first-IsDurable = record {
  older = [];
  seq = 1;
  safe = [];
  pending = [];
  log = first-IsLog;
  seg = refl;
  seg_seq = refl;
  buffer = refl;
  logged = record { snapshot = refl; replayed = refl; sound = tt };
  settled = refl;
}

abbrev works : World → Outcome DiskError (Unit {0}) × World
works w = (ok tt, w)

-- A call that worked has one result.
same_result :
    {m : Outcome DiskError (Unit {0}) × World} {s t : Storage} {d e : Directory}
    → m ≡ works (calm s d)
    → m ≡ works (calm t e)
    → (s ≡ t) × (d ≡ e)
same_result h k = (ap (λ p. p.1.storage) (sym h ∙ k), ap (λ p. p.1.os.directory) (sym h ∙ k))

-- A well-formed store whose Sync issues an fsync.
pub record IsSafe (s : Storage) (d : Directory) : Type 0 where
  pub durable : IsDurable s d
  pub mode : s.no_sync ≡ false

pub offset_new : (s : Storage) (rs : List Record) → IsLogged new s rs → offset s ≡ 0
unfolding new
offset_new s rs h = ap (λ p. p.metadata.index) h.snapshot

append-IsSafe :
    (s s' : Storage) (d : Directory) (e : Entry) (es : List Entry)
    → IsSafe s d
    → AllSound (puts (e ∷ es))
    → contiguous e.index (e ∷ es) ≡ true
    → e.index ≤ offset s + length s.entries + 1
    → append_entries s (e ∷ es) ≡ some (s', none)
    → IsSafe s' d
append-IsSafe s s' d e es h sound c gap done =
    let all = (records h.durable.older ++ h.durable.safe) ++ h.durable.pending in
    let (t, news, ran, l) =
      append_entries-Logs new s all e es h.durable.logged sound c gap
        (omega (arith, offset_new s all h.durable.logged)) in
    let same : t ≡ s' = ap (λ p. p.0) (some-injective _ _ (sym ran ∙ done)) in
    subst (λ x. IsSafe x d) same
      (record {
        durable = Logs-IsDurable s d h.durable news t l;
        mode = ap (λ (x : Storage). x.no_sync) l.rest ∙ h.mode;
      })

set-IsSafe :
    (s : Storage) (d : Directory) (st : HardState)
    → IsSafe s d
    → IsSound (set_state st)
    → IsSafe (set_hard_state s st) d
set-IsSafe s d st h sound =
    let l = set_hard_state-Logs new s _ st h.durable.logged sound in
    record {
      durable = Logs-IsDurable s d h.durable (set_state st ∷ []) (set_hard_state s st) l;
      mode = ap (λ (x : Storage). x.no_sync) l.rest ∙ h.mode;
    }

-- The state that a call has returned is the one that it is known to return.
returned :
    {m : Outcome DiskError (Unit {0}) × World} {s t : Storage} {d e : Directory}
    → m ≡ works (calm s d)
    → m ≡ works (calm t e)
    → IsSafe s d
    → IsSafe t e
returned {s = s} {t = t} {d = d} {e = e} h k safe =
    let (p, q) = same_result h k in subst (λ x. IsSafe x e) p (subst (IsSafe s) q safe)

sync-IsSafe :
    (s s' : Storage) (d d' : Directory)
    → IsSafe s d
    → s.seg_seq + 1 < 2 ^ 64
    → sync_batch (calm s d) ≡ (ok tt, calm s' d')
    → IsSafe s' d'
sync-IsSafe s s' d d' h word done =
    let (t, e, ran, synced) =
      sync_batch-IsSynced s d h.durable h.mode (omega (arith, h.durable.seg_seq)) in
    returned ran done (record { durable = synced.durable; mode = synced.mode ∙ h.mode })

crash-IsSafe :
    (s s' : Storage) (d d' : Directory) (m : ℕ)
    → IsDurable s d
    → open_storage (record { directory = crash_image s d m; faults = []; unsynced = [] })
      ≡ (ok tt, calm s' d')
    → IsSafe s' d'
crash-IsSafe s s' d d' m h done =
    let (t, e, ran, r) = open_storage-Reopens s d m h in
    returned ran done (record { durable = r.durable; mode = r.mode })

-- Behind a run from Open of an empty directory, which appends contiguous entries that leave no gap
-- and can be encoded (a payload stays below the limit of a frame), sets hard states that fit
-- words, syncs, and crashes and is opened again, without ApplySnapshot, DisableSync and failing
-- calls: the records of the files and of the buffer replay to what the store holds, its segments
-- are listed in the order in which they were written, and its no_sync flag is off.
pub Run-IsSafe : {s : Storage} {d : Directory} → Run s d → IsSafe s d
unfolding new
Run-IsSafe (first opening) =
    returned open_storage_first opening (record { durable = first-IsDurable; mode = refl })
Run-IsSafe (append e es run sound c gap done) =
    append-IsSafe _ _ _ e es (Run-IsSafe run) sound c gap done
Run-IsSafe (set st run sound) = set-IsSafe _ _ st (Run-IsSafe run) sound
Run-IsSafe (sync run word done) = sync-IsSafe _ _ _ _ (Run-IsSafe run) word done
Run-IsSafe (crash m run done) = crash-IsSafe _ _ _ _ m (Run-IsSafe run).durable done
Run-IsSafe (crash_in_sync {s = s} {t = t} {d = d} {e = e} m run word rotation done) =
    let h = (Run-IsSafe run).durable in
    let (t', e', ran, durable, same, mode) =
      rotate_full-IsDurable s d h (omega (arith, h.seg_seq)) in
    let (p, q) = same_result ran rotation in
    crash-IsSafe t _ e _ m (subst (λ x. IsDurable x e) p (subst (IsDurable t') q durable)) done

no_records : (rs : List Record) → log_bytes rs ≡ [] → rs ≡ []
no_records [] h = refl
no_records (r ∷ rs) h = absurd (omega (arith, length-log_bytes (r ∷ rs), ap length h))

-- Behind an empty buffer, what Open rebuilds is what the store held.
Reopens-mem_of :
    (s s' : Storage) (d d' : Directory) (h : IsDurable s d)
    → s.buf ≡ []
    → Reopens (records h.older ++ h.safe) h.pending s' d'
    → mem_of s' ≡ mem_of s
Reopens-mem_of s s' d d' h empty r =
    let none_pending = no_records h.pending (sym h.buffer ∙ empty) in
    let none_kept : r.kept ≡ [] = nothing_kept r.kept r.lost (sym r.splits ∙ none_pending) in
    let all = records h.older ++ h.safe in
    let same = ok-injective (
      sym r.replayed
      ∙ ap (λ l. redo_all new (all ++ l)) (none_kept ∙ sym none_pending)
      ∙ h.logged.replayed) in
    mem_of_same s s' (r.durable.logged.snapshot ∙ sym h.logged.snapshot)
      (ap (λ (t : Storage). t.hard_state) same) (ap (λ (t : Storage). t.entries) same)
  where
    nothing_kept : (xs ys : List Record) → xs ++ ys ≡ [] → xs ≡ []
    nothing_kept [] ys e = refl
    nothing_kept (x ∷ xs) ys e = cc

    mem_of_same :
        (s s' : Storage)
        → s'.snapshot ≡ s.snapshot
        → s'.hard_state ≡ s.hard_state
        → s'.entries ≡ s.entries
        → mem_of s' ≡ mem_of s
    mem_of_same s s' p q r = cc

-- What a Sync has returned for survives, behind a run from Open of an empty directory, which
-- appends contiguous entries that leave no gap and can be encoded (a payload stays below the limit
-- of a frame), sets hard states that fit words, syncs, and crashes and is opened again, without
-- ApplySnapshot, DisableSync and failing calls: a Sync returns no error, and then a crash of the
-- machine at any moment before the next write leaves files from which Open rebuilds the log and
-- the hard state that the store held; the snapshot is the empty one before and after. The number
-- of the next segment fits a word.
pub synced_survive :
    {s : Storage} {d : Directory}
    → Run s d
    → s.seg_seq + 1 < 2 ^ 64
    → (s' : Storage) × (d' : Directory) × (sync_batch (calm s d) ≡ (ok tt, calm s' d'))
      × ((m : ℕ)
          → (t : Storage) × (e : Directory) × (open_storage
                (record { directory = crash_image s' d' m; faults = []; unsynced = [] })
              ≡ (ok tt, calm t e))
            × (mem_of t ≡ mem_of s))
synced_survive {s} {d} run word =
    let h = Run-IsSafe run in
    let (s', d', ran, synced) =
      sync_batch-IsSynced s d h.durable h.mode (omega (arith, h.durable.seg_seq)) in
    (
      s',
      d',
      ran,
      λ m.
          let (t, e, opening, r) = open_storage-Reopens s' d' m synced.durable in
          (t, e, opening, Reopens-mem_of s' t d' e synced.durable synced.buffer r ∙ synced.same),
    )
