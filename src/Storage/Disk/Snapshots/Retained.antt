-- ===== src/Storage/Disk/Snapshots/Retained.antt =====
-- storage/disk/snapshot.go: what a replay from a new snapshot makes of the log before it.
use parallax_kv.Base.{
  ℕ, ◌+◌, ◌-◌, ◌^◌, ◌<◌, ◌≤◌, ◌≡◌, refl, sym, ap, ◌∙◌, true, false, List, [], ◌∷◌, ◌++◌, ok,
  and_then, arith, length, drop, nat_eq,
}
use parallax_kv.Raft.Types.{Entry, Snapshot}
use parallax_kv.Storage.Mem.Append.{contiguous}
use parallax_kv.Storage.Disk.{Storage, new, offset}
use parallax_kv.Storage.Disk.Records.{apply_entry_record, truncate_suffix, settle, is_boundary}
use parallax_kv.Storage.Disk.Records.Redo.{
  Record, append_one, truncate_above, AllSound, redo, redo_all, redo_all-append,
}
use parallax_kv.Storage.Disk.Records.Rebase.{IsRebased, redo_all-IsRebased}
use parallax_kv.Storage.Disk.Log.Mirror.{mem_of}
use parallax_kv.Storage.Disk.Log.Logged.{puts, IsLogged, redo_dense}
use parallax_kv.Storage.Disk.Snapshots.{retain_suffix, diverges, behind}

retain_suffix-beyond :
    (s : Storage) (snap : Snapshot)
    → retain_suffix s snap ≡ true
    → offset s + length s.entries < 2 ^ 64
    → snap.metadata.index < offset s + length s.entries
unfolding retain_suffix
retain_suffix-beyond s snap h fits = ground arith

same_mirror :
    (s t : Storage)
    → s.hard_state ≡ t.hard_state
    → s.snapshot ≡ t.snapshot
    → s.entries ≡ t.entries
    → mem_of s ≡ mem_of t
same_mirror s t p q r = cc

-- The replay of a log from a snapshot, and from the store before it that Open starts with.
rebased :
    (b b' s : Storage) (rs : List Record) (snap : Snapshot)
    → IsLogged b s rs
    → b.entries ≡ []
    → b'.snapshot ≡ snap
    → b'.hard_state ≡ b.hard_state
    → offset s < snap.metadata.index
    → snap.metadata.index + 1 < 2 ^ 64
    → (t : Storage) × (redo_all b' rs ≡ ok t)
      × IsRebased snap (record b { hard_state = s.hard_state; entries = s.entries }) t
rebased b b' s rs snap h empty start state newer word =
    let base : offset b ≡ offset s = ap (λ p. p.metadata.index) (sym h.snapshot) in
    redo_all-IsRebased snap b b' _ rs
      (record {
        above = omega arith;
        word = word;
        start = start;
        state = state;
        suffix = λ g. absurd (omega (arith, ap length empty));
      })
      h.sound h.replayed

-- A snapshot inside the log that has its term at its index: the replay of the same log from the
-- snapshot leaves what the mirror holds behind ApplySnapshot. The log replays to the mirror before,
-- from a store without entries, and its indexes fit a word.
pub behind-replayed :
    (b s : Storage) (rs : List Record) (snap : Snapshot)
    → IsLogged b s rs
    → b.entries ≡ []
    → offset s < snap.metadata.index
    → offset s + length s.entries < 2 ^ 64
    → retain_suffix s snap ≡ true
    → (t : Storage) × (redo_all (record b { snapshot = snap }) rs ≡ ok t)
      × (mem_of t ≡ mem_of (behind s snap))
unfolding behind
behind-replayed b s rs snap h empty newer fits retained =
    let beyond = retain_suffix-beyond s snap retained fits in
    let base : offset b ≡ offset s = ap (λ p. p.metadata.index) (sym h.snapshot) in
    let (t, done, r) =
      rebased b (record b { snapshot = snap }) s rs snap h empty refl refl newer (omega arith) in
    let suffix =
      r.suffix (omega arith)
      ∙ ap (λ n. drop n s.entries) {y = snap.metadata.index - offset s} (omega arith) in
    (t, done, same_mirror t (behind s snap) r.state r.start (rw retained suffix))

settled_at :
    (s : Storage) (snap : Snapshot)
    → s.snapshot ≡ snap
    → let t = settle snap.metadata (truncate_suffix s snap.metadata.index) in
      (t.snapshot_truncation_pending ≡ false)
      × (t.entries ≡ [])
      × (t.hard_state ≡ s.hard_state)
      × (t.snapshot ≡ snap)
unfolding settle truncate_suffix is_boundary
settled_at s snap h =
    let i : s.snapshot.metadata.index ≡ snap.metadata.index = ap (λ p. p.metadata.index) h in
    let u : s.snapshot.metadata.term ≡ snap.metadata.term = ap (λ p. p.metadata.term) h in
    (ground (arith, i, u), ground (arith, i, u), ground (arith, i, u), ground (arith, i, u, h))

-- A snapshot inside the log that has another term at its index: the replay of the same log from
-- the snapshot, with the marker of the truncation behind it, leaves what the mirror holds behind
-- ApplySnapshot, and no truncation is pending any more. The log replays to the mirror before,
-- from a store without entries, and the numbers of the snapshot fit their fields.
pub behind-replayed_marker :
    (b s : Storage) (rs : List Record) (snap : Snapshot)
    → IsLogged b s rs
    → b.entries ≡ []
    → offset s < snap.metadata.index
    → snap.metadata.index + 1 < 2 ^ 64
    → diverges s snap ≡ true
    → (t : Storage) × (redo_all
          (record b { snapshot = snap; snapshot_truncation_pending = true })
          (rs ++ truncate_above snap.metadata ∷ [])
        ≡ ok t)
      × (mem_of t ≡ mem_of (behind s snap))
      × (t.snapshot_truncation_pending ≡ false)
unfolding behind redo_all redo diverges
behind-replayed_marker b s rs snap h empty newer word d =
    let b' = record b { snapshot = snap; snapshot_truncation_pending = true } in
    let (t, done, r) = rebased b b' s rs snap h empty refl refl newer word in
    let (settled, none_left, state, start) = settled_at t snap r.start in
    let dropped : retain_suffix s snap ≡ false = ground arith in
    let u = settle snap.metadata (truncate_suffix t snap.metadata.index) in
    (
      u,
      redo_all-append b' t rs (truncate_above snap.metadata ∷ []) done,
      same_mirror u (behind s snap) (state ∙ r.state) start (rw dropped none_left),
      settled,
    )

-- Entries at or below the snapshot's index.
abbrev pub AllCovered : ℕ → List Entry → Type 0
AllCovered i [] = Unit
AllCovered i (e ∷ es) = (e.index ≤ i) × AllCovered i es

redo_covered :
    (es : List Entry) (t : Storage) → AllCovered (offset t) es → redo_all t (puts es) ≡ ok t
unfolding redo_all redo apply_entry_record
redo_covered [] t h = refl
redo_covered (e ∷ es) t h =
    let first : redo t (append_one e) ≡ ok t = ground arith in
    rw (first, and_then) (redo_covered es t h.1)

-- Entries that were overwritten come back: if a log held entries above the index of a snapshot,
-- and then an append at or below that index overwrote them, the replay from the snapshot skips
-- the append and leaves the overwritten entries above the snapshot.
pub overwritten_return :
    (snap : Snapshot) (old new_ones : List Entry)
    → AllSound (puts old)
    → contiguous (snap.metadata.index + 1) old ≡ true
    → AllCovered snap.metadata.index new_ones
    → redo_all (record new { snapshot = snap }) (puts old ++ puts new_ones)
      ≡ ok (record new { snapshot = snap; entries = old })
unfolding new
overwritten_return snap old new_ones sound c covered =
    let b = record new { snapshot = snap } in
    let dense : contiguous (snap.metadata.index + 0 + 1) old ≡ true =
      ap (λ k. contiguous k old) {y = snap.metadata.index + 1} (omega arith) ∙ c in
    redo_all-append b _ (puts old) (puts new_ones) (redo_dense old b sound dense)
    ∙ redo_covered new_ones (record b { entries = old }) covered
