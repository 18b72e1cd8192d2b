-- ===== src/Raft/Unstable.antt =====
-- raft/log.go, `unstable`: entries and a snapshot that the driver has not persisted yet. An
-- `(x, ok)` result is an option; the outer option of some results is a panic.
pub mod Lookup
use parallax_kv.Base.{
  ℕ, zero, ◌||◌, ◌&&◌, not, Bool, true, false, Option, none, some, List, [], ◌∷◌, ◌++◌, length,
  get_elem?, ltb, leb, add64, sub64, ◌==◌, nat_eq, if◌then◌else◌,
}
use parallax_kv.Base.Panics.{◌>>=◌, slice_from, slice_to}
use parallax_kv.Raft.Types.{Entry, Snapshot}

-- entries[i] has log index offset + i
pub record Unstable : Type 0 where
  pub snapshot : Option Snapshot
  pub entries : List Entry
  pub offset : ℕ

unfoldable pub maybe_first_index : Unstable → Option ℕ
maybe_first_index u = elim u.snapshot [ none ↦ none | some s ↦ some (add64 s.metadata.index 1) ]

last_from : Option Snapshot → List Entry → ℕ → Option ℕ
last_from snapshot (e ∷ es) offset = some (sub64 (add64 offset (length (e ∷ es))) 1)
last_from none [] offset = none
last_from (some s) [] offset = some s.metadata.index

unfoldable pub maybe_last_index : Unstable → Option ℕ
unfolding last_from
maybe_last_index u = last_from u.snapshot u.entries u.offset

-- the term of the snapshot, if it covers exactly i
snapshot_term : Option Snapshot → ℕ → Option ℕ
snapshot_term none i = none
snapshot_term (some s) i = if s.metadata.index == i then some s.metadata.term else none

-- the reads of maybeTerm at an index that is not above the last
term_within : Unstable → ℕ → Option ℕ → Option (Option ℕ)
term_within u i (some t) = some (some t)
term_within u i none = do e ← get_elem? u.entries (sub64 i u.offset); some (some e.term)

up_to_last : Unstable → ℕ → Option ℕ → Option (Option ℕ)
unfolding term_within
up_to_last u i none = some none
up_to_last u i (some last) =
    if ltb last i then some none else term_within u i (snapshot_term u.snapshot i)

unfoldable pub maybe_term : Unstable → ℕ → Option (Option ℕ)
unfolding up_to_last snapshot_term
maybe_term u i =
    if ltb i u.offset
    then some (snapshot_term u.snapshot i)
    else up_to_last u i (maybe_last_index u)

drop_through : Unstable → ℕ → ℕ → Option ℕ → Option Unstable
drop_through u i t none = some u
drop_through u i t (some gt) = if not (gt == t) || ltb i u.offset then some u else (do
  rest ← slice_from u.entries (sub64 (add64 i 1) u.offset)
  some (record u { entries = rest; offset = add64 i 1 }))

unfoldable pub stable_to : Unstable → ℕ → ℕ → Option Unstable
unfolding drop_through
stable_to u i t = do gt ← maybe_term u i; drop_through u i t gt

unfoldable pub stable_snap_to : Unstable → ℕ → Unstable
stable_snap_to u i = elim u.snapshot [
  | none ↦ u
  | some s ↦ if s.metadata.index == i then record u { snapshot = none } else u
]

unfoldable pub restore : Unstable → Snapshot → Unstable
restore u s = record { snapshot = some s; entries = []; offset = add64 s.metadata.index 1 }

-- The `switch` of truncateAppend on the first incoming index. A slice has its length as capacity
-- here, so an index with a gap behind the entries panics, where Go panics only beyond the capacity
-- of the array and else brings back what stands there. Contiguous entries behind an index
-- that the log holds leave no gap.
splice_at : Unstable → List Entry → ℕ → Option Unstable
splice_at u ents first =
    if first == add64 u.offset (length u.entries)
    then some (record u { entries = u.entries ++ ents })
    else if leb first u.offset
    then some (record u { entries = ents; offset = first })
    else (do
      keep ← slice_to u.entries (sub64 first u.offset)
      some (record u { entries = keep ++ ents }))

unfoldable pub truncate_append : Unstable → List Entry → Option Unstable
unfolding splice_at
truncate_append u [] = some u
truncate_append u (e ∷ es) = splice_at u (e ∷ es) e.index
