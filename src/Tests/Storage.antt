-- ===== src/Tests/Storage.antt =====
-- A log of five entries behind a snapshot: appends, a compaction and snapshots.
use parallax_kv.Base.{ℕ, ◌≡◌, refl, true, none, some, [], ◌∷◌, arith}
use parallax_kv.Raft.Types.{Entry, entry_normal, Snapshot}
use parallax_kv.Raft.Unstable.{Unstable, truncate_append}
use parallax_kv.Raft.Unstable.Lookup
use parallax_kv.Raft.Unstable.Lookup.{overlaid, truncate_append_lem}
use parallax_kv.Storage.Mem.{Storage, append_entries}
use parallax_kv.Storage.Mem.Lookup.{Fits}
use parallax_kv.Storage.Mem.Append.{contiguous, IsOverwritten, append_entries-IsOverwritten}

abbrev at : ℕ → ℕ → Entry
at i t = record { term = t; index = i; type = entry_normal; payload = [] }

abbrev to_index : ℕ → ℕ → Snapshot
to_index i t = record { metadata = record { index = i; term = t }; payload = [] }

-- entries 4, 5 and 6 behind a snapshot of 3
abbrev held : Storage
held = record {
  hard_state = record { term = 2; vote = 1; commit = 5 };
  snapshot = to_index 3 1;
  entries = at 4 1 ∷ at 5 2 ∷ at 6 2 ∷ [];
}

held-Fits : Fits held
held-Fits = record { fits = omega arith }

in_order : contiguous 3 (at 3 1 ∷ at 4 3 ∷ []) ≡ true
unfolding contiguous
in_order = refl

-- an append that starts below the snapshot and overwrites entry 4
append_entries-IsOverwritten_example :
    (k : Storage) × (append_entries held (at 3 1 ∷ at 4 3 ∷ []) ≡ some (k, none))
    × IsOverwritten 3 (at 3 1 ∷ at 4 3 ∷ []) held k
append_entries-IsOverwritten_example =
    append_entries-IsOverwritten held (at 3 1) (at 4 3 ∷ []) held-Fits in_order (omega arith)
      (omega arith)

abbrev tail : Unstable
tail = record { snapshot = none; entries = at 4 1 ∷ at 5 2 ∷ []; offset = 4 }

truncate_append_lem_example :
    (v : Unstable) × (truncate_append tail (at 5 3 ∷ at 6 3 ∷ []) ≡ some v)
    × ((i : ℕ) → Lookup.entry_at v i ≡ overlaid tail 5 (at 5 3 ∷ at 6 3 ∷ []) i)
truncate_append_lem_example =
    truncate_append_lem tail (at 5 3) (at 6 3 ∷ []) (omega arith) (omega arith)
