-- ===== src/Storage/Disk/Log.antt =====
-- storage/disk/disk.go: the operations on the mirror, which buffer their records. `none` is a
-- panic.
pub mod Mirror
pub mod Logged
use parallax_kv.Base.{
  ℕ, ◌-◌, Option, none, some, List, [], ◌∷◌, ◌++◌, Bytes, Outcome, ok, err, length, take, drop,
  get_elem?, ltb, leb, add64, sub64, ◌==◌, nat_eq, if◌then◌else◌,
}
use parallax_kv.Base.Panics.{◌>>=◌, slice_from}
use parallax_kv.Raft.Types.{Entry, HardState, Snapshot}
use parallax_kv.Raft.LogStorage
use parallax_kv.Raft.LogStorage.{StorageError}
use parallax_kv.Storage.Mem.{first_entry_index, last_entry_index}
use parallax_kv.Storage.Disk.{Storage, offset}
use parallax_kv.Storage.Disk.Framing.{append_frame, encode_entry, encode_hard_state}

-- one record for each entry
unfoldable pub buffer_entries : Bytes → List Entry → Bytes
buffer_entries buf [] = buf
buffer_entries buf (e ∷ es) = buffer_entries (append_frame buf (encode_entry e)) es

-- s.entries = append(s.entries[:pos], entries...) and the records, unless there is a gap
unfoldable pub splice : Storage → List Entry → ℕ → Storage × Option StorageError
splice s entries first =
    let pos = sub64 first (add64 (offset s) 1) in
    if ltb (length s.entries) pos then (s, some LogStorage.unavailable) else (
      record s { entries = take pos s.entries ++ entries; buf = buffer_entries s.buf entries },
      none,
    )

unfoldable pub append_entries : Storage → List Entry → Option (Storage × Option StorageError)
unfolding splice
append_entries s [] = some (s, none)
append_entries s (e ∷ es) =
    let off = offset s in
    if leb (last_entry_index e es) off
    then some (s, none)
    else if leb e.index off
    then (do
      entries ← slice_from (e ∷ es) (sub64 (add64 off 1) e.index)
      first ← first_entry_index entries
      some (splice s entries first))
    else some (splice s (e ∷ es) e.index)

unfoldable pub set_hard_state : Storage → HardState → Storage
set_hard_state s st = record s { hard_state = st; buf = append_frame s.buf (encode_hard_state st) }

-- Entries(lo, hi)
unfoldable pub entries : Storage → ℕ → ℕ → Outcome StorageError (List Entry)
entries s lo hi =
    let off = offset s in
    if leb lo off
    then err LogStorage.compacted
    else if ltb (add64 (add64 off (length s.entries)) 1) hi
    then err LogStorage.unavailable
    else if ltb hi lo
    then err LogStorage.unavailable
    else if lo == hi
    then ok []
    else ok (drop (lo - off - 1) (take (hi - off - 1) s.entries))

-- s.entries[i-off-1].Term, of an index that is in range
abbrev pub term_at : List Entry → ℕ → ℕ
term_at es i = elim (get_elem? es i) [ none ↦ 0 | some e ↦ e.term ]

-- Term(i)
unfoldable pub term : Storage → ℕ → Outcome StorageError ℕ
term s i =
    let off = offset s in
    if i == off
    then ok s.snapshot.metadata.term
    else if ltb i off
    then err LogStorage.compacted
    else if ltb (add64 off (length s.entries)) i
    then err LogStorage.unavailable
    else ok (term_at s.entries (i - off - 1))

unfoldable pub first_index : Storage → ℕ
first_index s = add64 (offset s) 1

unfoldable pub last_index : Storage → ℕ
last_index s = add64 (offset s) (length s.entries)
