-- ===== src/Tests/Disk.antt =====
-- A store on disk that runs, crashes and is opened again.
use parallax_kv.Base.{
  ℕ, ◌+◌, ◌^◌, ◌<◌, ◌≤◌, ◌≡◌, refl, Bool, true, false, some, none, List, [], ◌∷◌, ◌++◌, Bytes,
  Outcome, ok, err, arith, length, length-take, take, drop, checksum,
}
use parallax_kv.Raft.Types.{Entry, entry_normal, HardState, Snapshot}
use parallax_kv.Storage.Mem.Append.{contiguous}
use parallax_kv.Storage.Mem
use parallax_kv.Storage.Disk.{Storage, new, io_error, compacted}
use parallax_kv.Storage.Disk.Os.{World, works, fails}
use parallax_kv.Storage.Disk.Os.Calm.{Directory, calm}
use parallax_kv.Storage.Disk.Framing.{frame, read_frame, encode_entry, type_byte, type_of_byte}
use parallax_kv.Storage.Disk.Framing.RoundTrip.{IsEncodable}
use parallax_kv.Storage.Disk.Framing.Bounds.{IsFrameOf, read_frame-IsFrameOf}
use parallax_kv.Storage.Disk.Segments.{sync_batch}
use parallax_kv.Storage.Disk.Segments.Failures.{SameLog, sync_batch-SameLog}
use parallax_kv.Storage.Disk.Snapshots.{
  apply_snapshot, retain_suffix, diverges, behind, snap_payload, parse_snap_payload,
}
use parallax_kv.Storage.Disk.Snapshots.Failures.{IsLeft, apply_snapshot-IsLeft}
use parallax_kv.Storage.Disk.Snapshots.RoundTrip.{parse-snap_payload}
use parallax_kv.Storage.Disk.Snapshots.Retained.{
  behind-replayed, behind-replayed_marker, overwritten_return,
}
use parallax_kv.Storage.Disk.Records.Redo.{Record, truncate_above, AllSound, redo_all}
use parallax_kv.Storage.Disk.Wal.{open_storage, replay_from}
use parallax_kv.Storage.Disk.Wal.Fuel.{replay_enough}
use parallax_kv.Storage.Disk.Log.{append_entries, set_hard_state, buffer_entries, splice}
use parallax_kv.Storage.Disk.Log.Mirror.{
  mem_of, appended_of, append_entries-mem_of, AnswersAlike, mem_of-AnswersAlike,
}
use parallax_kv.Storage.Disk.Log.Logged.{puts, IsLogged}
use parallax_kv.Storage.Disk.Recovery.Crash.{crash_image, Reopens, open_storage-Reopens}
use parallax_kv.Storage.Disk.Recovery.Written.{with_segment}
use parallax_kv.Storage.Disk.Recovery.{records, IsDurable}
use parallax_kv.Storage.Disk.Recovery.Runs.{
  Run, first, append, set, first_store, open_storage_first, IsSafe, Run-IsSafe, synced_survive,
}

abbrev entry : ℕ → ℕ → Entry
entry i t = record { term = t; index = i; type = entry_normal; payload = i ∷ [] }

abbrev two : List Entry
two = entry 1 1 ∷ entry 2 1 ∷ []

entry-IsEncodable : (i t : ℕ) → i < 2 ^ 64 → t < 2 ^ 64 → IsEncodable (entry i t)
unfolding type_byte type_of_byte
entry-IsEncodable i t h k = record {
  term = k;
  index = h;
  type_bound = omega arith;
  type_name = refl;
  payload = omega arith;
}

two_sound : AllSound (puts two)
two_sound = (
  (entry-IsEncodable 1 1 (omega arith) (omega arith), omega arith),
  ((entry-IsEncodable 2 1 (omega arith) (omega arith), omega arith), tt),
)

in_order : contiguous 1 two ≡ true
unfolding contiguous
in_order = refl

abbrev state : HardState
state = record { term = 1; vote = 2; commit = 1 }

voted : Run (set_hard_state first_store state) (with_segment [] 1)
voted = set state (first open_storage_first) (omega arith, omega arith, omega arith)

abbrev appended_store : Storage
appended_store = record (set_hard_state first_store state) {
  entries = two;
  buf = buffer_entries (set_hard_state first_store state).buf two;
}

appends : append_entries (set_hard_state first_store state) two ≡ some (appended_store, none)
unfolding append_entries set_hard_state new splice
appends = refl

run : Run appended_store (with_segment [] 1)
unfolding set_hard_state new
run = append (entry 1 1) (entry 2 1 ∷ []) voted two_sound in_order (omega arith) appends

abbrev directory : Directory
directory = with_segment [] 1

Run-IsSafe_example : IsSafe appended_store directory
Run-IsSafe_example = Run-IsSafe run

synced_survive_example :
    (s' : Storage) × (d' : Directory) × (sync_batch (calm appended_store directory)
      ≡ (ok tt, calm s' d'))
    × ((m : ℕ)
        → (t : Storage) × (e : Directory) × (open_storage
              (record { directory = crash_image s' d' m; faults = []; unsynced = [] })
            ≡ (ok tt, calm t e))
          × (mem_of t ≡ mem_of appended_store))
unfolding set_hard_state
synced_survive_example = synced_survive run (unfold new in omega arith)

abbrev durable : IsDurable appended_store directory
durable = (Run-IsSafe run).durable

-- a crash that has left 40 bytes of the write
open_storage-Reopens_example :
    (s' : Storage) × (d' : Directory) × (open_storage
        (record { directory = crash_image appended_store directory 40; faults = []; unsynced = [] })
      ≡ (ok tt, calm s' d'))
    × Reopens (records durable.older ++ durable.safe) durable.pending s' d'
open_storage-Reopens_example = open_storage-Reopens appended_store directory 40 durable

append_entries-mem_of_example :
    appended_of (append_entries first_store two) ≡ Mem.append_entries (mem_of first_store) two
append_entries-mem_of_example = append_entries-mem_of first_store two

mem_of-AnswersAlike_example : AnswersAlike appended_store (mem_of appended_store)
mem_of-AnswersAlike_example = mem_of-AnswersAlike appended_store

one_byte : read_frame (frame (7 ∷ [])) ≡ ok (7 ∷ [], 9)
unfolding read_frame frame checksum parallax_kv.Base.be_bytes parallax_kv.Storage.Disk.Framing.field
    parallax_kv.Base.be_value
one_byte = refl

read_frame-IsFrameOf_example : IsFrameOf (frame (7 ∷ [])) (7 ∷ []) 9
read_frame-IsFrameOf_example = read_frame-IsFrameOf (frame (7 ∷ [])) (7 ∷ []) 9 one_byte

-- a torn frame of five bytes, with one unit of fuel more than bytes
replay_enough_example :
    replay_from 6 first_store 0 (take 5 (frame (7 ∷ [])))
    ≡ replay_from 5 first_store 0 (take 5 (frame (7 ∷ [])))
replay_enough_example =
    replay_enough 6 5 first_store 0 (take 5 (frame (7 ∷ [])))
      (omega (arith, length-take 5 (frame (7 ∷ []))))
      (omega (arith, length-take 5 (frame (7 ∷ []))))

-- the first call, the write, fails after three bytes
abbrev failing : World
failing = record {
  storage = set_hard_state first_store state;
  os = record { directory = directory; faults = fails 3 ∷ []; unsynced = [] };
}

abbrev failed : World
failed = (sync_batch failing).1

sync_fails : sync_batch failing ≡ (err io_error, failed)
unfolding sync_batch parallax_kv.Storage.Disk.Segments.sync_buffered set_hard_state
    parallax_kv.Storage.Disk.Framing.append_frame new frame parallax_kv.Base.be_bytes
    parallax_kv.Storage.Disk.Framing.encode_hard_state parallax_kv.Storage.Disk.Os.write
sync_fails = refl

sync_batch-SameLog_example : SameLog failing.storage failed.storage
sync_batch-SameLog_example = sync_batch-SameLog failing failed io_error sync_fails

abbrev snap : ℕ → ℕ → Snapshot
snap i t = record { metadata = record { index = i; term = t }; payload = 9 ∷ [] }

-- a snapshot of the index that the store has already
stale : apply_snapshot (snap 0 1) failing ≡ (err compacted, failing)
unfolding apply_snapshot set_hard_state new
stale = refl

apply_snapshot-IsLeft_example : IsLeft failing.storage (snap 0 1) failing.storage
apply_snapshot-IsLeft_example = apply_snapshot-IsLeft (snap 0 1) failing failing compacted stale

parse-snap_payload_example :
    (parse_snap_payload (snap_payload (snap 3 2) true)
      ≡ ok (record { snapshot = snap 3 2; truncate_suffix = true }))
    × (parse_snap_payload (take 21 (snap_payload (snap 3 2) true))
        ≡ ok (record { snapshot = snap 3 2; truncate_suffix = false }))
parse-snap_payload_example =
    parse-snap_payload (snap 3 2) true
      (record { index = omega arith; term = omega arith; payload = omega arith })

third_in_order : contiguous 3 (entry 3 1 ∷ []) ≡ true
unfolding contiguous
third_in_order = refl

overwritten_return_example :
    redo_all (record new { snapshot = snap 2 2 }) (puts (entry 3 1 ∷ []) ++ puts (entry 2 2 ∷ []))
    ≡ ok (record new { snapshot = snap 2 2; entries = entry 3 1 ∷ [] })
overwritten_return_example =
    overwritten_return (snap 2 2) (entry 3 1 ∷ []) (entry 2 2 ∷ [])
      ((entry-IsEncodable 3 1 (omega arith) (omega arith), omega arith), tt) third_in_order
      (omega arith, tt)

abbrev logged_store : Storage
logged_store = record new { entries = two }

two_replayed : redo_all new (puts two) ≡ ok logged_store
unfolding redo_all parallax_kv.Storage.Disk.Records.Redo.redo
    parallax_kv.Storage.Disk.Records.apply_entry_record new
two_replayed = refl

two-IsLogged : IsLogged new logged_store (puts two)
two-IsLogged = record { snapshot = refl; replayed = two_replayed; sound = two_sound }

first_retained : retain_suffix logged_store (snap 1 1) ≡ true
unfolding retain_suffix new
first_retained = refl

behind-replayed_example :
    (t : Storage) × (redo_all (record new { snapshot = snap 1 1 }) (puts two) ≡ ok t)
    × (mem_of t ≡ mem_of (behind logged_store (snap 1 1)))
unfolding new
behind-replayed_example =
    behind-replayed new logged_store (puts two) (snap 1 1) two-IsLogged refl
      (unfold new in omega arith) (unfold new in omega arith) first_retained

first_diverges : diverges logged_store (snap 1 5) ≡ true
unfolding diverges new
first_diverges = refl

behind-replayed_marker_example :
    (t : Storage) × (redo_all
        (record new { snapshot = snap 1 5; snapshot_truncation_pending = true })
        (puts two ++ truncate_above (record { index = 1; term = 5 }) ∷ [])
      ≡ ok t)
    × (mem_of t ≡ mem_of (behind logged_store (snap 1 5)))
    × (t.snapshot_truncation_pending ≡ false)
unfolding new
behind-replayed_marker_example =
    behind-replayed_marker new logged_store (puts two) (snap 1 5) two-IsLogged refl
      (unfold new in omega arith) (omega arith) first_diverges
