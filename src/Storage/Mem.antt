-- ===== src/Storage/Mem.antt =====
-- storage/mem/mem.go: the in-memory log storage of the simulator. `none` is a panic.
pub mod Lookup
pub mod Append
use parallax_kv.Base.{
  ℕ, ◌-◌, Bool, true, false, ◌&&◌, Option, none, some, List, [], ◌∷◌, ◌++◌, Outcome, ok, err,
  length, take, drop, get_elem?, ltb, leb, add64, sub64, ◌==◌, nat_eq, if◌then◌else◌,
}
use parallax_kv.Base.Panics.{◌>>=◌, slice_from, slice}
use parallax_kv.Raft.Types.{Entry, HardState, Snapshot, SnapshotMetadata}
use parallax_kv.Raft.LogStorage.{StorageError, compacted, unavailable, LogStorage}

-- entries[i] holds the entry at index snapshot.metadata.index + 1 + i
pub record Storage : Type 0 where
  pub hard_state : HardState
  pub snapshot : Snapshot
  pub entries : List Entry

unfoldable pub new : Storage
new = record {
  hard_state = record { term = 0; vote = 0; commit = 0 };
  snapshot = record { metadata = record { index = 0; term = 0 }; payload = [] };
  entries = [];
}

abbrev pub offset : Storage → ℕ
offset s = s.snapshot.metadata.index

-- off + uint64(len(s.entries))
abbrev pub last_of : Storage → ℕ
last_of s = add64 (offset s) (length s.entries)

-- entries[0].Index and entries[len(entries)-1].Index
abbrev pub first_entry_index : List Entry → Option ℕ
first_entry_index [] = none
first_entry_index (e ∷ es) = some e.index

abbrev pub last_entry_index : Entry → List Entry → ℕ
last_entry_index e [] = e.index
last_entry_index e (e' ∷ es) = last_entry_index e' es

-- s.entries = append(s.entries[:pos], entries...), unless there is a gap
unfoldable pub splice : Storage → List Entry → ℕ → Storage × Option StorageError
splice s entries first =
    let pos = sub64 first (add64 (offset s) 1) in
    if ltb (length s.entries) pos
    then (s, some unavailable)
    else (record s { entries = take pos s.entries ++ entries }, none)

unfoldable pub append_entries : Storage → List Entry → Option (Storage × Option StorageError)
unfolding splice
append_entries s [] = some (s, none)
append_entries s (e ∷ es) =
    let off = offset s in
    if leb (last_entry_index e es) off
    then some (s, none)
    else if leb e.index off
    then (do
      entries ← slice_from (e ∷ es) (sub64 (add64 off 1) e.index)
      first ← first_entry_index entries
      some (splice s entries first))
    else some (splice s (e ∷ es) e.index)

unfoldable pub set_hard_state : Storage → HardState → Storage
set_hard_state s st = record s { hard_state = st }

-- Entries(lo, hi)
unfoldable pub entries : Storage → ℕ → ℕ → Outcome StorageError (List Entry)
entries s lo hi =
    let off = offset s in
    if leb lo off
    then err compacted
    else if ltb (add64 (last_of s) 1) hi
    then err unavailable
    else if ltb hi lo
    then err unavailable
    else if lo == hi
    then ok []
    else ok (drop (lo - off - 1) (take (hi - off - 1) s.entries))

-- s.entries[i].Term, for an index that the callers have checked
abbrev pub term_at : List Entry → ℕ → Option ℕ
term_at es i = do e ← get_elem? es i; some e.term

abbrev pub or_zero : Option ℕ → ℕ
or_zero none = 0
or_zero (some n) = n

-- Term(i)
unfoldable pub term : Storage → ℕ → Outcome StorageError ℕ
term s i =
    let off = offset s in
    if i == off
    then ok s.snapshot.metadata.term
    else if ltb i off
    then err compacted
    else if ltb (last_of s) i
    then err unavailable
    else ok (or_zero (term_at s.entries (i - off - 1)))

unfoldable pub first_index : Storage → ℕ
first_index s = add64 (offset s) 1

unfoldable pub last_index : Storage → ℕ
last_index s = last_of s

-- A suffix is kept only if the entry at the snapshot's boundary has the snapshot's term.
retains : Storage → Snapshot → Bool
retains s snap =
    ltb snap.metadata.index (last_of s)
    && or_zero (term_at s.entries (snap.metadata.index - offset s - 1)) == snap.metadata.term

unfoldable pub apply_snapshot : Storage → Snapshot → Storage × Option StorageError
unfolding retains
apply_snapshot s snap = if leb snap.metadata.index (offset s) then (s, some compacted) else (
  record s {
    snapshot = snap;
    entries = if retains s snap then drop (snap.metadata.index - offset s) s.entries else [];
  },
  none,
)

unfoldable pub compact : Storage → ℕ → Storage × Option StorageError
compact s index =
    let off = offset s in
    if leb index off
    then (s, some compacted)
    else if ltb (last_of s) index
    then (s, some unavailable)
    else (
      record s {
        entries = drop (index - off) s.entries;
        snapshot = record {
          metadata = record { index = index; term = or_zero (term_at s.entries (index - off - 1)) };
          payload = s.snapshot.payload;
        };
      },
      none,
    )

-- What the core reads of the storage.
abbrev pub as_log_storage : Storage → LogStorage
as_log_storage s = record {
  hard_state = ok s.hard_state;
  entries = entries s;
  term = term s;
  first_index = ok (first_index s);
  last_index = ok (last_index s);
  snapshot = ok s.snapshot;
}
