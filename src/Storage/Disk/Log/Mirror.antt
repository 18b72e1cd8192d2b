-- ===== src/Storage/Disk/Log/Mirror.antt =====
-- storage/disk/disk.go against storage/mem/mem.go: the two stores answer alike.
use parallax_kv.Base.{
  ℕ, ◌-◌, ◌≡◌, refl, Option, none, some, List, [], ◌∷◌, arith, add64, sub64, nat_eq,
}
use parallax_kv.Base.Panics.{◌>>=◌, slice_from}
use parallax_kv.Raft.Types.{Entry}
use parallax_kv.Raft.LogStorage.{StorageError}
use parallax_kv.Storage.Mem
use parallax_kv.Storage.Mem.{first_entry_index, last_entry_index}
use parallax_kv.Storage.Disk.{Storage, offset}
use parallax_kv.Storage.Disk.Log.{
  append_entries, splice, entries, term, first_index, last_index, term_at,
}

-- The mirror, as a store in memory.
abbrev pub mem_of : Storage → Mem.Storage
mem_of s = record { hard_state = s.hard_state; snapshot = s.snapshot; entries = s.entries }

abbrev pub appended_of :
    Option (Storage × Option StorageError) → Option (Mem.Storage × Option StorageError)
appended_of none = none
appended_of (some (s, e)) = some (mem_of s, e)

splice_mem :
    (s : Storage) (es : List Entry) (first : ℕ)
    → appended_of (some (splice s es first)) ≡ some (Mem.splice (mem_of s) es first)
unfolding splice Mem.splice
splice_mem s es first = ground arith

splice_all :
    (s : Storage) (es : List Entry)
    → appended_of (do first ← first_entry_index es; some (splice s es first))
      ≡ (do first ← first_entry_index es; some (Mem.splice (mem_of s) es first))
splice_all s [] = refl
splice_all s (e ∷ es) = splice_mem s (e ∷ es) e.index

splice_sliced :
    (s : Storage) (o : Option (List Entry))
    → appended_of (do es ← o; first ← first_entry_index es; some (splice s es first))
      ≡ (do es ← o; first ← first_entry_index es; some (Mem.splice (mem_of s) es first))
splice_sliced s none = refl
splice_sliced s (some es) = splice_all s es

-- AppendEntries of the store on disk leaves the same log, returns the same error and panics on
-- the same input as that of the store in memory.
pub append_entries-mem_of :
    (s : Storage) (es : List Entry)
    → appended_of (append_entries s es) ≡ Mem.append_entries (mem_of s) es
unfolding append_entries Mem.append_entries
append_entries-mem_of s [] = refl
append_entries-mem_of s (e ∷ es) = ground (
  arith,
  splice_sliced s (slice_from (e ∷ es) (sub64 (add64 (offset s) 1) e.index)),
  splice_mem s (e ∷ es) e.index,
)

term_at_mem : (es : List Entry) (i : ℕ) → term_at es i ≡ Mem.or_zero (Mem.term_at es i)
term_at_mem es i = ground arith

-- The two stores answer alike: the hard state that was set, the entries of a range, the term of
-- an index, the first and the last index, and their errors.
pub record AnswersAlike (s : Storage) (m : Mem.Storage) : Type 0 where
  pub entries_alike : (lo hi : ℕ) → entries s lo hi ≡ Mem.entries m lo hi
  pub term_alike : (i : ℕ) → term s i ≡ Mem.term m i
  pub first_alike : first_index s ≡ Mem.first_index m
  pub last_alike : last_index s ≡ Mem.last_index m
  pub state_alike : s.hard_state ≡ m.hard_state

pub mem_of-AnswersAlike : (s : Storage) → AnswersAlike s (mem_of s)
unfolding entries term first_index last_index Mem.entries Mem.term Mem.first_index Mem.last_index
mem_of-AnswersAlike s = record {
  entries_alike = λ lo hi. refl;
  term_alike = λ i. ground (arith, term_at_mem s.entries (i - offset s - 1));
  first_alike = refl;
  last_alike = refl;
  state_alike = refl;
}
