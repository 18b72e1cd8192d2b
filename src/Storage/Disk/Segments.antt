-- ===== src/Storage/Disk/Segments.antt =====
-- storage/disk/wal.go and disk.go: the segment files of the log, and the write of the buffer.
pub mod Names
pub mod Failures
pub mod Flushed
pub mod Named
use parallax_kv.Base.{
  ℕ, ◌+◌, ◌-◌, ◌&&◌, Bool, true, false, not, Option, none, some, List, [], ◌∷◌, ◌++◌, Bytes, length,
  take, drop, get_last?, leb, ltb, add64, sub64, ◌==◌, nat_eq, bytes_eq, if◌then◌else◌, sort_by,
  bytes_leb, padded, scan_padded,
}
use parallax_kv.Storage.Disk.{Storage, bad_segment_name, io_error}
use parallax_kv.Storage.Disk.Os.{
  M, ◌>>=◌, ◌>>◌, pure, fail, get, put, read_dir, open_file, create, write, truncate, sync, remove,
  stat_size, no_op, fsync_dir,
}

-- 16 << 20
abbrev pub max_segment_size : ℕ
max_segment_size = 16777216

-- strings.HasPrefix and strings.HasSuffix
unfoldable pub has_prefix : Bytes → Bytes → Bool
has_prefix n prefix = take (length prefix) n == prefix

unfoldable pub has_suffix : Bytes → Bytes → Bool
has_suffix n suffix = leb (length suffix) (length n) && drop (length n - length suffix) n == suffix

-- "wal-" and ".seg"
abbrev pub wal_prefix : Bytes
wal_prefix = b'w' ∷ b'a' ∷ b'l' ∷ b'-' ∷ []

abbrev pub seg_suffix : Bytes
seg_suffix = b'.' ∷ b's' ∷ b'e' ∷ b'g' ∷ []

unfoldable pub segment_name : ℕ → Bytes
segment_name seq = wal_prefix ++ (padded 20 seq ++ seg_suffix)

-- behind the number, the rest of the pattern
unfoldable pub seq_before_suffix : Option (ℕ × Bytes) → Option ℕ
unfolding has_prefix
seq_before_suffix none = none
seq_before_suffix (some (seq, rest)) = if has_prefix rest seg_suffix then some seq else none

unfoldable pub parse_segment_seq : Bytes → Option ℕ
unfolding has_prefix seq_before_suffix
parse_segment_seq name =
    if has_prefix name wal_prefix then seq_before_suffix (scan_padded 20 (drop 4 name)) else none

unfoldable pub is_segment : Bytes → Bool
unfolding has_prefix has_suffix
is_segment n = has_prefix n wal_prefix && has_suffix n seg_suffix

-- the names that a test selects
unfoldable pub select : (Bytes → Bool) → List Bytes → List Bytes
select p [] = []
select p (n ∷ ns) = let rest = select p ns in if p n then n ∷ rest else rest

unfoldable pub list_segments : M (List Bytes)
list_segments = do names ← read_dir; pure (sort_by bytes_leb (select is_segment names))

-- the files behind a torn tail
unfoldable pub remove_all : List Bytes → M (Unit {0})
remove_all [] = pure tt
remove_all (n ∷ ns) = remove n >> remove_all ns

unfoldable pub remove_segments : List Bytes → M (Unit {0})
unfolding remove_all
remove_segments names = remove_all names >> (if ltb 0 (length names) then fsync_dir else pure tt)

unfoldable pub truncate_segment : Bytes → ℕ → M (Unit {0})
truncate_segment path size = open_file path >> (truncate path size >> sync path)

unfoldable pub close_named : Option Bytes → M (Unit {0})
close_named none = pure tt
close_named (some name) = no_op >> (get >>= λ s. put (record s { seg = none }))

-- if s.seg != nil
unfoldable pub close_active : M (Unit {0})
unfolding close_named
close_active = get >>= λ s. close_named s.seg

unfoldable pub activate : ℕ → M (Unit {0})
activate seq = do
  s ← get
  put (record s { seg = some (segment_name seq); seg_size = 0; seg_seq = seq })

unfoldable pub rotate_segment : ℕ → M (Unit {0})
rotate_segment seq = close_active >> (create (segment_name seq) >> (activate seq >> fsync_dir))

unfoldable pub or_bad_name : Option ℕ → M ℕ
or_bad_name none = fail bad_segment_name
or_bad_name (some seq) = pure seq

unfoldable pub set_active : Bytes → ℕ → ℕ → M (Unit {0})
set_active name seq size = do
  s ← get
  put (record s { seg = some name; seg_size = size; seg_seq = seq })

unfoldable pub open_named : Bytes → ℕ → M (Unit {0})
unfolding set_active
open_named name seq = open_file name >> (stat_size name >>= set_active name seq)

-- the highest-numbered segment, or a first one
unfoldable pub open_last : Option Bytes → M (Unit {0})
unfolding or_bad_name open_named
open_last none = rotate_segment 1
open_last (some name) = or_bad_name (parse_segment_seq name) >>= open_named name

unfoldable pub open_active_segment : List Bytes → M (Unit {0})
unfolding open_last
open_active_segment segs = open_last (get_last? segs)

-- a method of s.seg; a nil file answers with an error
unfoldable pub on_seg : (Bytes → M (Unit {0})) → Option Bytes → M (Unit {0})
on_seg f none = fail io_error
on_seg f (some name) = f name

-- the active segment has grown past its size
unfoldable pub rotate_full : M (Unit {0})
rotate_full = do
  s ← get
  if leb max_segment_size s.seg_size then rotate_segment (add64 s.seg_seq 1) else pure tt

-- what is left to do once the buffer is in the file
unfoldable pub wrote : M (Unit {0})
wrote = do s ← get; put (record s { seg_size = s.seg_size + length s.buf; buf = [] })

unfoldable pub write_buffer : Bool → M (Unit {0})
unfolding on_seg wrote
write_buffer durable = do
  s ← get
  on_seg (λ name. write name s.buf) s.seg
  if durable then on_seg sync s.seg else pure tt
  wrote

unfoldable pub sync_buffered : Bool → M (Unit {0})
unfolding rotate_full write_buffer
sync_buffered durable = do
  s ← get
  if length s.buf == 0 then pure tt else rotate_full >> write_buffer durable

-- Sync
unfoldable pub sync_batch : M (Unit {0})
sync_batch = do s ← get; sync_buffered (not s.no_sync)

unfoldable pub close : M (Unit {0})
close = do
  s ← get
  elim s.seg [
    | none ↦ pure tt
    | some name ↦ λ w. let (r, w') = no_op w in (r, record w' { storage = record s { seg = none } })
  ]

unfoldable pub disable_sync : Storage → Storage
disable_sync s = record s { no_sync = true }
