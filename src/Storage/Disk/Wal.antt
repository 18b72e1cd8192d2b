-- ===== src/Storage/Disk/Wal.antt =====
-- storage/disk/wal.go: the replay of the segments, and Open.
pub mod Replay
pub mod Fuel
use parallax_kv.Base.{
  ℕ, zero, suc, ◌+◌, Bool, true, false, Option, none, some, List, [], ◌∷◌, ◌++◌, Bytes, Outcome, ok,
  err, length, drop, if◌then◌else◌,
}
use parallax_kv.Storage.Disk.{Storage, DiskError, new}
use parallax_kv.Storage.Disk.Framing.{read_frame, append_frame, encode_truncate_suffix}
use parallax_kv.Storage.Disk.Records.{apply_record}
use parallax_kv.Storage.Disk.Os.{Os, World, M, ◌>>=◌, ◌>>◌, pure, get, put, read_file, no_op}
use parallax_kv.Storage.Disk.Segments.{
  list_segments, truncate_segment, remove_segments, open_active_segment, sync_buffered, close,
}
use parallax_kv.Storage.Disk.Snapshots.{load_latest_snapshot}

-- What the loop over a segment leaves: the mirror, and the offset of a record that ends the log.
pub record Replayed : Type 0 where
  pub mirror : Storage
  pub torn : Option ℕ

-- One round of the loop, at a frame that starts at `off`: go on behind it, or stop.
pub data Round : Type 0 where
  next : Storage → ℕ → Round
  stop : Round

unfoldable pub applied : Outcome DiskError Storage → ℕ → Round
applied (ok s) n = next s n
applied (err e) n = stop

unfoldable pub round : Storage → Bytes → Round
unfolding applied
round s rest = elim (read_frame rest) [
  | ok (payload, n) ↦ applied (apply_record s payload) n
  | err e ↦ stop
]

-- The loop from `off` on, whose unread bytes are `rest`. A frame has at least one byte, so the
-- number of bytes is fuel enough (replay_enough).
unfoldable pub replay_from : ℕ → Storage → ℕ → Bytes → Replayed
replay_from fuel s off [] = record { mirror = s; torn = none }
replay_from zero s off (b ∷ rest) = record { mirror = s; torn = some off }
replay_from (suc fuel) s off (b ∷ rest) = elim (round s (b ∷ rest)) [
  | stop ↦ record { mirror = s; torn = some off }
  | next s' n ↦ replay_from fuel s' (off + n) (drop n (b ∷ rest))
]

unfoldable pub replay : Storage → Bytes → Replayed
replay s content = replay_from (length content) s 0 content

-- the cut of a torn tail
unfoldable pub cut_at : Bytes → Option ℕ → M Bool
cut_at name none = pure false
cut_at name (some off) = truncate_segment name off >> pure true

-- the loop over the bytes of a segment
unfoldable pub replay_content : Bytes → Bytes → M Bool
unfolding cut_at
replay_content name content = do
  s ← get
  put (replay s content).mirror
  cut_at name (replay s content).torn

unfoldable pub replay_segment : Bytes → M Bool
replay_segment name = do content ← read_file name; replay_content name content

-- what follows the replay of a segment: it ends the log, or the later ones are replayed
unfoldable pub replay_later : Bytes → List Bytes → M (List Bytes) → Bool → M (List Bytes)
replay_later name later rest true = remove_segments later >> pure (name ∷ [])
replay_later name later rest false = rest >>= λ segs. pure (name ∷ segs)

-- The segments in order, up to and with the first torn one; the later ones are removed.
unfoldable pub replay_segments : List Bytes → M (List Bytes)
unfolding replay_later
replay_segments [] w = (ok [], w)
replay_segments (name ∷ later) w =
    let rest = replay_segments later in (replay_segment name >>= replay_later name later rest) w

-- A failed repair closes the file, and Open returns the error of the repair.
or_close : M (Unit {0}) → M (Unit {0})
or_close m w = let (r, w') = m w in elim r [ ok a ↦ (ok a, w') | err e ↦ (err e, (close w').1) ]

unfoldable pub repair : Bool → M (Unit {0})
unfolding or_close
repair false w = (ok tt, w)
repair true w =
    (do
      s ← get
      put (record s { buf = append_frame s.buf (encode_truncate_suffix s.snapshot.metadata) })
      or_close (sync_buffered true)
      s' ← get
      put (record s' { snapshot_truncation_pending = false }))
      w

-- A suffix that was replayed without its pending marker is dropped.
unfoldable pub drop_divergent : M Bool
drop_divergent = do
  s ← get
  put (if s.snapshot_truncation_pending then record s { entries = [] } else s)
  pure s.snapshot_truncation_pending

-- what Open does behind the replay
unfoldable pub open_replayed : List Bytes → M (Unit {0})
unfolding repair drop_divergent
open_replayed segs = do pending ← drop_divergent; open_active_segment segs; repair pending

unfoldable pub recover : M (Unit {0})
unfolding open_replayed
recover = do
  load_latest_snapshot
  names ← list_segments
  segs ← replay_segments names
  open_replayed segs

-- Open, on the directory of `os`
unfoldable pub open_storage : Os → Outcome DiskError (Unit {0}) × World
unfolding recover
open_storage os = (no_op >> recover) (record { storage = new; os = os })
