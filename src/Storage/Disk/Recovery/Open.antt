-- ===== src/Storage/Disk/Recovery/Open.antt =====
-- storage/disk/wal.go: Open on the files of a log, in a directory whose calls all work.
use parallax_kv.Base.{
  ℕ, ◌^◌, ◌<◌, ◌≡◌, refl, ap, ◌∙◌, Bool, true, false, Option, none, some, List, [], ◌∷◌, ◌++◌,
  Bytes, ok, ok-injective, length, take, min, get_last?-snoc, nat_eq, bytes_eq, reverse, sort_by,
  bytes_leb,
}
use parallax_kv.Base.GoMap
use parallax_kv.Storage.Disk.{Storage, new}
use parallax_kv.Storage.Disk.Os.{
  World, File, ◌>>=◌, ◌>>◌, pure, read_dir, no_op, read_file, open_file, stat_size, truncate, sync,
}
use parallax_kv.Storage.Disk.Os.Calm.{
  Directory, calm, no_op-calm, read_dir-calm, read_file-calm, open_file-calm, stat_size-calm,
  truncate-calm, sync-calm, >>=-ok, >>-ok, put-put,
}
use parallax_kv.Storage.Disk.Segments.{
  segment_name, list_segments, truncate_segment, remove_segments, open_active_segment, open_last,
  or_bad_name, open_named, set_active, remove_all, select,
}
use parallax_kv.Storage.Disk.Segments.Names.{parse_segment_seq-segment_name}
use parallax_kv.Storage.Disk.Snapshots.{load_latest_snapshot, load_newest, is_snapshot}
use parallax_kv.Storage.Disk.Records.Redo.{AllSound, AllSound-split, redo_all, redo_all-split}
use parallax_kv.Storage.Disk.Wal.{
  Replayed, replay, replay_segment, replay_content, replay_segments, replay_later, cut_at,
  open_storage, recover, open_replayed, drop_divergent, repair,
}
use parallax_kv.Storage.Disk.Wal.Replay.{replay-log_bytes}
use parallax_kv.Storage.Disk.Recovery.{segments_of, Segments, names, records, AllHeld}

list_segments-calm :
    (s : Storage) (d : Directory) → list_segments (calm s d) ≡ (ok (segments_of d), calm s d)
unfolding list_segments
list_segments-calm s d = >>=-ok read_dir _ (read_dir-calm s d)

load_latest_none :
    (s : Storage) (d : Directory)
    → select is_snapshot (GoMap.keys d) ≡ []
    → load_latest_snapshot (calm s d) ≡ (ok tt, calm s d)
unfolding load_latest_snapshot load_newest sort_by
load_latest_none s d h =
    >>=-ok read_dir _ (read_dir-calm s d)
    ∙ ap (λ ns. load_newest (reverse (sort_by bytes_leb ns)) (calm s d)) h
    ∙ refl

-- the directory behind the cut of a torn tail
abbrev pub cut_directory : Directory → Bytes → File → Option ℕ → Directory
cut_directory d n f none = d
cut_directory d n f (some off) =
    GoMap.put d n (record { content = take off f.content; synced = length (take off f.content) })

abbrev is_torn : Option ℕ → Bool
is_torn none = false
is_torn (some off) = true

truncate_segment-calm :
    (s : Storage) (d : Directory) (n : Bytes) (f : File) (size : ℕ)
    → GoMap.get d n ≡ some f
    → truncate_segment n size (calm s d) ≡ (ok tt, calm s (cut_directory d n f (some size)))
unfolding truncate_segment
truncate_segment-calm s d n f size h =
    let g : File = record { content = take size f.content; synced = min f.synced size } in
    >>-ok (open_file n) (truncate n size >> sync n) (open_file-calm s d n f h)
    ∙ >>-ok (truncate n size) (sync n) (truncate-calm s d n f h size)
    ∙ sync-calm s (GoMap.put d n g) n g (GoMap.get-put_self d n g)
    ∙ ap (λ e. (ok tt, calm s e)) (put-put d n _ _)

cut_at-calm :
    (s : Storage) (d : Directory) (n : Bytes) (f : File) (torn : Option ℕ)
    → GoMap.get d n ≡ some f
    → cut_at n torn (calm s d) ≡ (ok (is_torn torn), calm s (cut_directory d n f torn))
unfolding cut_at
cut_at-calm s d n f none h = refl
cut_at-calm s d n f (some off) h =
    >>-ok (truncate_segment n off) (pure true) (truncate_segment-calm s d n f off h)

-- One segment: the mirror is replayed, and a torn tail is cut off.
replay_segment-calm :
    (s : Storage) (d : Directory) (n : Bytes) (f : File)
    → GoMap.get d n ≡ some f
    → replay_segment n (calm s d) ≡ (
      ok (is_torn (replay s f.content).torn),
      calm (replay s f.content).mirror (cut_directory d n f (replay s f.content).torn),
    )
unfolding replay_segment replay_content
replay_segment-calm s d n f h =
    >>=-ok (read_file n) (replay_content n) (read_file-calm s d n f h)
    ∙ cut_at-calm _ d n f (replay s f.content).torn h

-- The last segment, torn or not, is the end of the log.
replay_last :
    (s : Storage) (d : Directory) (n : Bytes) (f : File)
    → GoMap.get d n ≡ some f
    → replay_segments (n ∷ []) (calm s d) ≡ (
      ok (n ∷ []),
      calm (replay s f.content).mirror (cut_directory d n f (replay s f.content).torn),
    )
unfolding replay_segments replay_later remove_segments remove_all
replay_last s d n f h =
    >>=-ok (replay_segment n) (replay_later n [] (replay_segments []))
      (replay_segment-calm s d n f h)
    ∙ ends (replay s f.content).torn
  where
    ends :
        (torn : Option ℕ) {w : World}
        → replay_later n [] (replay_segments []) (is_torn torn) w ≡ (ok (n ∷ []), w)
    ends none = refl
    ends (some off) = refl

-- Segments of whole records before the last one.
replay_segments-calm :
    (segs : Segments) (last : Bytes) (s t : Storage) (d : Directory) (w : World)
    → AllHeld d segs
    → AllSound (records segs)
    → redo_all s (records segs) ≡ ok t
    → replay_segments (last ∷ []) (calm t d) ≡ (ok (last ∷ []), w)
    → replay_segments (names segs ++ last ∷ []) (calm s d) ≡ (ok (names segs ++ last ∷ []), w)
unfolding replay_segments replay_later redo_all
replay_segments-calm [] last s t d w held sound done end =
    ap (λ u. replay_segments (last ∷ []) (calm u d)) (ok-injective done) ∙ end
replay_segments-calm ((n, rs) ∷ segs) last s t d w ((f, found, bytes), held) sound done end =
    let (u, first, later) = redo_all-split s t rs (records segs) done in
    let (sound_first, sound_later) = AllSound-split rs (records segs) sound in
    let whole : replay s f.content ≡ record { mirror = u; torn = none } =
      ap (replay s) bytes ∙ replay-log_bytes s u rs sound_first first in
    let rest = replay_segments (names segs ++ last ∷ []) in
    let one : replay_segment n (calm s d) ≡ (ok false, calm u d) =
      replay_segment-calm s d n f found
      ∙ ap (λ (r : Replayed). (ok (is_torn r.torn), calm r.mirror (cut_directory d n f r.torn)))
          whole in
    >>=-ok (replay_segment n) (replay_later n (names segs ++ last ∷ []) rest) one
    ∙ >>=-ok rest (λ ns. pure (n ∷ ns))
        (replay_segments-calm segs last u t d w held sound_later later end)

-- the store that Open returns: the mirror, with the last segment open
abbrev pub opened : Storage → ℕ → File → Storage
opened t seq f = record t {
  seg = some (segment_name seq);
  seg_size = length f.content;
  seg_seq = seq;
}

open_active_segment-calm :
    (segs : List Bytes) (seq : ℕ) (t : Storage) (d : Directory) (f : File)
    → seq < 2 ^ 64
    → GoMap.get d (segment_name seq) ≡ some f
    → open_active_segment (segs ++ segment_name seq ∷ []) (calm t d)
      ≡ (ok tt, calm (opened t seq f) d)
unfolding open_active_segment open_last or_bad_name open_named set_active
open_active_segment-calm segs seq t d f word h =
    let n = segment_name seq in
    ap (λ o. open_last o (calm t d)) (get_last?-snoc segs n)
    ∙ ap (λ o. (or_bad_name o >>= open_named n) (calm t d))
        (parse_segment_seq-segment_name seq word)
    ∙ >>-ok (open_file n) (stat_size n >>= set_active n seq) (open_file-calm t d n f h)
    ∙ >>=-ok (stat_size n) (set_active n seq) (stat_size-calm t d n f h)

-- the active segment behind the cut of its torn tail
abbrev pub cut_file : File → Option ℕ → File
cut_file f none = f
cut_file f (some off) = record {
  content = take off f.content;
  synced = length (take off f.content);
}

pub get-cut_directory :
    (d : Directory) (n : Bytes) (f : File) (torn : Option ℕ)
    → GoMap.get d n ≡ some f
    → GoMap.get (cut_directory d n f torn) n ≡ some (cut_file f torn)
get-cut_directory d n f none h = h
get-cut_directory d n f (some off) h = GoMap.get-put_self d n _

open_replayed-calm :
    (segs : List Bytes) (seq : ℕ) (t : Storage) (d : Directory) (f : File)
    → t.snapshot_truncation_pending ≡ false
    → seq < 2 ^ 64
    → GoMap.get d (segment_name seq) ≡ some f
    → open_replayed (segs ++ segment_name seq ∷ []) (calm t d) ≡ (ok tt, calm (opened t seq f) d)
unfolding open_replayed drop_divergent repair
open_replayed-calm segs seq t d f settled word h =
    let all = segs ++ segment_name seq ∷ [] in
    let kept : drop_divergent (calm t d) ≡ (ok false, calm t d) = rw (settled, drop_divergent) in
    >>=-ok drop_divergent (λ pending. open_active_segment all >> repair pending) kept
    ∙ >>-ok (open_active_segment all) (repair false)
        (open_active_segment-calm segs seq t d f word h)

-- Open of a directory without snapshots, whose segments before the last hold whole records.
pub open_storage-calm :
    (d : Directory) (older : Segments) (seq : ℕ) (t : Storage) (f : File)
    → select is_snapshot (GoMap.keys d) ≡ []
    → segments_of d ≡ names older ++ segment_name seq ∷ []
    → AllHeld d older
    → AllSound (records older)
    → redo_all new (records older) ≡ ok t
    → GoMap.get d (segment_name seq) ≡ some f
    → seq < 2 ^ 64
    → (replay t f.content).mirror.snapshot_truncation_pending ≡ false
    → open_storage (record { directory = d; faults = []; unsynced = [] }) ≡ (
      ok tt,
      calm
          (opened (replay t f.content).mirror seq (cut_file f (replay t f.content).torn))
          (cut_directory d (segment_name seq) f (replay t f.content).torn),
    )
unfolding open_storage recover
open_storage-calm d older seq t f none_held listed held sound done active word settled =
    let n = segment_name seq in
    let all = names older ++ n ∷ [] in
    let out = replay t f.content in
    let d' = cut_directory d n f out.torn in
    >>-ok no_op recover (no_op-calm new d)
    ∙ >>-ok load_latest_snapshot (list_segments >>= λ ns. replay_segments ns >>= open_replayed)
        (load_latest_none new d none_held)
    ∙ >>=-ok list_segments (λ ns. replay_segments ns >>= open_replayed) (list_segments-calm new d)
    ∙ ap (λ ns. (replay_segments ns >>= open_replayed) (calm new d)) listed
    ∙ >>=-ok (replay_segments all) open_replayed (
        replay_segments-calm older n new t d (calm out.mirror d') held sound done
          (replay_last t d n f active))
    ∙ open_replayed-calm (names older) seq out.mirror d' (cut_file f out.torn) settled word
        (get-cut_directory d n f out.torn active)
