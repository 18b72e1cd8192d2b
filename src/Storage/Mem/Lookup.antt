-- ===== src/Storage/Mem/Lookup.antt =====
-- storage/mem/mem.go: what stands at each index after an append, a compaction or a snapshot.
use parallax_kv.Base.{
  ℕ, ◌+◌, ◌-◌, ◌^◌, ◌<◌, ◌≤◌, ◌≡◌, refl, ap, Bool, true, false, Option, none, some, [], arith,
  length, get_elem?, drop, leb, ◌==◌, nat_eq, if◌then◌else◌, length-drop, get_elem?-drop,
  get_elem?-within,
}
use parallax_kv.Base.Panics.{◌>>=◌}
use parallax_kv.Raft.Types.{Entry, Snapshot}
use parallax_kv.Storage.Mem.{Storage, offset, compact, apply_snapshot, retains, or_zero, term_at}

-- The entry at a log index, if it is held.
unfoldable pub entry_at : Storage → ℕ → Option Entry
entry_at s i = if leb i (offset s) then none else get_elem? s.entries (i - offset s - 1)

-- Every index of the log fits a word.
pub record Fits (s : Storage) : Type 0 where
  pub fits : offset s + length s.entries + 1 < 2 ^ 64

-- The term at an index of the log: the snapshot's at its index, the entry's above it.
unfoldable pub term_of : Storage → ℕ → Option ℕ
term_of s i =
    if i == offset s then some s.snapshot.metadata.term else (do e ← entry_at s i; some e.term)

-- `k` is the log `s` from `index` on: the term at `index`, and the entries above it.
pub record IsCutAt (index : ℕ) (s k : Storage) : Type 0 where
  pub fits : Fits k
  pub starts : offset k ≡ index
  pub ends : offset k + length k.entries ≡ offset s + length s.entries
  pub boundary : term_of k index ≡ term_of s index
  pub above : (i : ℕ) → index < i → entry_at k i ≡ entry_at s i

-- The log from an index of it on, behind a snapshot with the term of that index.
cut-IsCutAt :
    (s : Storage) (index : ℕ) (snap : Snapshot)
    → Fits s
    → offset s < index
    → index ≤ offset s + length s.entries
    → snap.metadata.index ≡ index
    → or_zero (term_at s.entries (index - offset s - 1)) ≡ snap.metadata.term
    → IsCutAt index s (record s { entries = drop (index - offset s) s.entries; snapshot = snap })
unfolding entry_at term_of
cut-IsCutAt s index snap f lo hi p q =
    let (x, held) = get_elem?-within s.entries (index - offset s - 1) (omega arith) in
    record {
      fits = record { fits = omega (arith, length-drop (index - offset s) s.entries, f.fits) };
      starts = p;
      ends = omega (arith, length-drop (index - offset s) s.entries);
      boundary =
          let here : x.term ≡ snap.metadata.term = rw held at q in ground (arith, held, here);
      above = λ i h. ground (
        arith,
        get_elem?-drop (index - offset s) s.entries (i - snap.metadata.index - 1),
        ap (get_elem? s.entries) {x = index - offset s + (i - snap.metadata.index - 1)}
            {y = i - offset s - 1} (omega arith),
      );
    }

-- Compact at an index of the log above the snapshot returns no error. The log then starts at the
-- index and ends where it did, with the same term at the index and the same entries above it.
-- The indexes of the log fit a word.
pub compact-IsCutAt :
    (s : Storage) (index : ℕ)
    → Fits s
    → offset s < index
    → index ≤ offset s + length s.entries
    → (k : Storage) × (compact s index ≡ (k, none)) × IsCutAt index s k
unfolding compact
compact-IsCutAt s index f lo hi =
    let fits = f.fits in
    (
      record s {
        entries = drop (index - offset s) s.entries;
        snapshot = record {
          metadata = record {
            index = index;
            term = or_zero (term_at s.entries (index - offset s - 1));
          };
          payload = s.snapshot.payload;
        };
      },
      ground arith,
      cut-IsCutAt s index _ f lo hi refl refl,
    )

-- The log goes on beyond the snapshot, and has its term at its index.
pub record Agrees (s : Storage) (snap : Snapshot) : Type 0 where
  pub beyond : snap.metadata.index < offset s + length s.entries
  pub same_term : term_of s snap.metadata.index ≡ some snap.metadata.term

retains-term :
    (s : Storage) (snap : Snapshot)
    → retains s snap ≡ true
    → or_zero (term_at s.entries (snap.metadata.index - offset s - 1)) ≡ snap.metadata.term
unfolding retains
retains-term s snap h = ground arith

retains-Agrees :
    (s : Storage) (snap : Snapshot)
    → Fits s
    → offset s < snap.metadata.index
    → retains s snap ≡ true
    → Agrees s snap
unfolding retains term_of entry_at
retains-Agrees s snap f newer h =
    let fits = f.fits in
    let beyond : snap.metadata.index < offset s + length s.entries = ground arith in
    let (x, found) =
      get_elem?-within s.entries (snap.metadata.index - offset s - 1) (omega arith) in
    record { beyond = beyond; same_term = ground (arith, found) }

Agrees-retains :
    (s : Storage) (snap : Snapshot)
    → Fits s
    → offset s < snap.metadata.index
    → Agrees s snap
    → retains s snap ≡ true
unfolding retains term_of entry_at
Agrees-retains s snap f newer h =
    let fits = f.fits in
    let (x, found) =
      get_elem?-within s.entries (snap.metadata.index - offset s - 1) (omega (arith, h.beyond)) in
    ground (arith, found, h.same_term, h.beyond)

-- ApplySnapshot of a snapshot above the stored one returns no error and stores it. If the log
-- goes on beyond the snapshot's index and has its term there, the entries above it and the end
-- of the log are kept; if not, no entry is kept. The indexes of the log fit a word.
pub apply_snapshot_lem :
    (s : Storage) (snap : Snapshot)
    → Fits s
    → offset s < snap.metadata.index
    → (k : Storage) × (apply_snapshot s snap ≡ (k, none))
      × (k.snapshot ≡ snap)
      × (Agrees s snap → IsCutAt snap.metadata.index s k)
      × (¬ Agrees s snap → k.entries ≡ [])
unfolding apply_snapshot
apply_snapshot_lem s snap f newer = chosen (retains s snap) refl
  where
    chosen :
        (b : Bool)
        → retains s snap ≡ b
        → (k : Storage) × (apply_snapshot s snap ≡ (k, none))
          × (k.snapshot ≡ snap)
          × (Agrees s snap → IsCutAt snap.metadata.index s k)
          × (¬ Agrees s snap → k.entries ≡ [])
    chosen true p = (
      record s { entries = drop (snap.metadata.index - offset s) s.entries; snapshot = snap },
      ground (arith, p),
      refl,
      (λ h.
          cut-IsCutAt s snap.metadata.index snap f newer (omega (arith, h.beyond)) refl
            (retains-term s snap p)),
      λ h. absurd (h (retains-Agrees s snap f newer p)),
    )
    chosen false p = (
      record s { entries = []; snapshot = snap },
      ground (arith, p),
      refl,
      (λ h. cc (Agrees-retains s snap f newer h)),
      λ h. refl,
    )
