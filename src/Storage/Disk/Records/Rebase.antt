-- ===== src/Storage/Disk/Records/Rebase.antt =====
-- storage/disk: the replay of one log from a snapshot, and from the state before it.
use parallax_kv.Base.{
  ℕ, ◌+◌, ◌-◌, ◌^◌, ◌<◌, ◌≤◌, ◌≡◌, refl, sym, ap, ◌∙◌, List, [], ◌∷◌, ◌++◌, ok, ok-injective, subst,
  and_then, and_then-eq-ok, arith, length, length-append, length-take, length-drop, take, drop,
  drop-append_within, drop-take, take_beyond, leb, add64, sub64, nat_eq, Bool-cases, inl, inr,
}
use parallax_kv.Raft.Types.{Entry, Snapshot, SnapshotMetadata}
use parallax_kv.Storage.Disk.{Storage, offset}
use parallax_kv.Storage.Disk.Records.{apply_entry_record, truncate_suffix, settle}
use parallax_kv.Storage.Disk.Records.Redo.{
  Record, append_one, set_state, truncate_above, IsSound, AllSound, redo, redo_all,
}

-- `s'` starts at a snapshot above that of `s`. If the log of `s` goes on beyond the snapshot, the
-- entries of `s'` are those above it.
pub record IsRebased (snap : Snapshot) (s s' : Storage) : Type 0 where
  pub above : offset s ≤ snap.metadata.index
  pub word : snap.metadata.index + 1 < 2 ^ 64
  pub start : s'.snapshot ≡ snap
  pub state : s'.hard_state ≡ s.hard_state
  pub suffix :
      snap.metadata.index < offset s + length s.entries
      → s'.entries ≡ drop (snap.metadata.index - offset s) s.entries

drop_placed :
    (k n : ℕ) (xs : List Entry) (e : Entry)
    → k ≤ n
    → n ≤ length xs
    → drop k (take n xs ++ e ∷ []) ≡ take (n - k) (drop k xs) ++ e ∷ []
drop_placed k n xs e h l =
    drop-append_within k (take n xs) (e ∷ []) (omega (arith, length-take n xs))
    ∙ ap (λ ys. ys ++ e ∷ []) (drop-take k n xs)

-- the front of the entries above the snapshot, up to a place in the log
front :
    (snap : Snapshot) (s s' : Storage) (n : ℕ)
    → IsRebased snap s s'
    → n ≤ length s.entries
    → snap.metadata.index - offset s ≤ n
    → let m = n - (snap.metadata.index - offset s) in
      (take m s'.entries ≡ take m (drop (snap.metadata.index - offset s) s.entries))
      × (m ≤ length s'.entries)
front snap s s' n h within lo = elim (Bool-cases (leb n (snap.metadata.index - offset s))) [
  | inl t ↦
      let none_left : n - (snap.metadata.index - offset s) ≡ 0 = ground arith in
      (rw none_left refl, omega arith)
  | inr f ↦
      let k = snap.metadata.index - offset s in
      let below = h.above in
      let suffix = h.suffix (ground arith) in
      (ap (take (n - k)) suffix, omega (arith, ap length suffix, length-drop k s.entries))
]

-- An entry above the snapshot, in both logs.
place_above :
    (snap : Snapshot) (s s' : Storage) (e : Entry)
    → IsRebased snap s s'
    → e.index < 2 ^ 64
    → snap.metadata.index < e.index
    → e.index ≤ offset s + length s.entries + 1
    → (t' : Storage) × (apply_entry_record s' e ≡ ok t')
      × IsRebased snap (record s { entries = take (e.index - offset s - 1) s.entries ++ e ∷ [] }) t'
unfolding apply_entry_record
place_above snap s s' e h word above within =
    let i = snap.metadata.index in
    let base : offset s' ≡ i = ap (λ p. p.metadata.index) h.start in
    let lo = h.above in
    let n = e.index - offset s - 1 in
    let k = i - offset s in
    let pos : sub64 e.index (add64 (offset s') 1) ≡ n - k = omega (arith, h.word) in
    let (same, room) = front snap s s' n h (omega arith) (omega arith) in
    (
      record s' { entries = take (n - k) s'.entries ++ e ∷ [] },
      rw pos (ground (arith, base)),
      record {
        above = h.above;
        word = h.word;
        start = h.start;
        state = h.state;
        suffix = λ g.
            ap (λ ys. ys ++ e ∷ []) same
            ∙ sym (drop_placed k n s.entries e (omega arith) (omega arith));
      },
    )

-- An entry above the start of a log is placed without a gap, or refused.
placed :
    (s t : Storage) (e : Entry)
    → e.index < 2 ^ 64
    → offset s < e.index
    → apply_entry_record s e ≡ ok t
    → (e.index ≤ offset s + length s.entries + 1)
      × (record s { entries = take (e.index - offset s - 1) s.entries ++ e ∷ [] } ≡ t)
unfolding apply_entry_record
placed s t e word lo done =
    let n = e.index - offset s - 1 in
    let pos : sub64 e.index (add64 (offset s) 1) ≡ n = omega arith in
    let run = rw pos at done in (ground arith, ground arith)

-- The two logs after a record that applies to the first.
abbrev Steps : Snapshot → Storage → Storage → Record → Type 0
Steps snap t s' r = (t' : Storage) × (redo s' r ≡ ok t') × IsRebased snap t t'

covered : (s : Storage) (e : Entry) → e.index ≤ offset s → redo s (append_one e) ≡ ok s
unfolding redo apply_entry_record
covered s e h = ground arith

step_append :
    (snap : Snapshot) (s s' t : Storage) (e : Entry)
    → IsRebased snap s s'
    → e.index < 2 ^ 64
    → redo s (append_one e) ≡ ok t
    → Steps snap t s' (append_one e)
unfolding redo
step_append snap s s' t e h word done =
    let i = snap.metadata.index in
    let lo = h.above in
    let base : offset s' ≡ i = ap (λ p. p.metadata.index) h.start in
    elim (Bool-cases (leb e.index (offset s))) [
      | inl t1 ↦ (
        s',
        covered s' e (ground arith),
        subst (λ x. IsRebased snap x s') (ok-injective (sym (covered s e (ground arith)) ∙ done)) h,
      )
      | inr f1 ↦
          let (within, same) = placed s t e word (ground arith) done in
          subst (λ x. Steps snap x s' (append_one e)) same
            (elim (Bool-cases (leb e.index i)) [
              | inl t2 ↦ (
                s',
                covered s' e (ground arith),
                record {
                  above = h.above;
                  word = h.word;
                  start = h.start;
                  state = h.state;
                  suffix = λ g. absurd (short s e i g within (ground arith) (ground arith));
                },
              )
              | inr f2 ↦ place_above snap s s' e h word (ground arith) within
            ])
    ]
  where
    short :
        (s : Storage) (e : Entry) (i : ℕ)
        → i < offset s + length (take (e.index - offset s - 1) s.entries ++ e ∷ [])
        → e.index ≤ offset s + length s.entries + 1
        → offset s < e.index
        → e.index ≤ i
        → ⊥
    short s e i g within lo hi = omega (
      arith,
      length-append (take (e.index - offset s - 1) s.entries) (e ∷ []),
      length-take (e.index - offset s - 1) s.entries,
    )

-- A truncation keeps the entries up to its index.
truncated :
    (s : Storage) (index : ℕ)
    → index < 2 ^ 64
    → (truncate_suffix s index).entries ≡ take (index - offset s) s.entries
unfolding truncate_suffix
truncated s index word = elim (Bool-cases (leb index (offset s))) [
  | inl t ↦ let nothing : index - offset s ≡ 0 = ground arith in rw nothing (ground arith)
  | inr f ↦
      let keep : sub64 index (offset s) ≡ index - offset s = ground arith in
      rw keep (ground (arith, take_beyond (index - offset s) s.entries))
]

-- A truncation and its marker leave the rest.
untouched :
    (s : Storage) (meta : SnapshotMetadata)
    → let t = settle meta (truncate_suffix s meta.index) in
      (t.snapshot ≡ s.snapshot)
      × (t.hard_state ≡ s.hard_state)
      × (t.entries ≡ (truncate_suffix s meta.index).entries)
unfolding settle truncate_suffix
untouched s meta = (ground arith, ground arith, ground arith)

step_truncate :
    (snap : Snapshot) (s s' : Storage) (meta : SnapshotMetadata)
    → IsRebased snap s s'
    → meta.index < 2 ^ 64
    → IsRebased snap
        (settle meta (truncate_suffix s meta.index))
        (settle meta (truncate_suffix s' meta.index))
step_truncate snap s s' meta h word =
    let i = snap.metadata.index in
    let lo = h.above in
    let t = settle meta (truncate_suffix s meta.index) in
    let (start, state, entries) = untouched s meta in
    let (start', state', entries') = untouched s' meta in
    let same : offset t ≡ offset s = ap (λ p. p.metadata.index) start in
    let base : offset s' ≡ i = ap (λ p. p.metadata.index) h.start in
    let kept : t.entries ≡ take (meta.index - offset s) s.entries =
      entries ∙ truncated s meta.index word in
    record {
      above = omega arith;
      word = h.word;
      start = start' ∙ h.start;
      state = state' ∙ h.state ∙ sym state;
      suffix = λ g.
          let size = omega_size t.entries (meta.index - offset s) s.entries kept in
          let suffix = h.suffix (omega arith) in
          entries'
          ∙ truncated s' meta.index word
          ∙ ap (take (meta.index - offset s')) suffix
          ∙ ap (λ n. take n (drop (i - offset s) s.entries))
              {y = meta.index - offset s - (i - offset s)} (omega arith)
          ∙ sym (drop-take (i - offset s) (meta.index - offset s) s.entries)
          ∙ ap (drop (i - offset s)) (sym kept)
          ∙ ap (λ n. drop n t.entries) {y = i - offset t} (omega arith);
    }
  where
    omega_size :
        (ys : List Entry) (n : ℕ) (xs : List Entry)
        → ys ≡ take n xs
        → (length ys ≤ n) × (length ys ≤ length xs)
    omega_size ys n xs e =
        (omega (arith, ap length e, length-take n xs), omega (arith, ap length e, length-take n xs))

-- Every record that applies to the log applies to the rebased one.
redo-IsRebased :
    (snap : Snapshot) (s s' t : Storage) (r : Record)
    → IsRebased snap s s'
    → IsSound r
    → redo s r ≡ ok t
    → Steps snap t s' r
unfolding redo
redo-IsRebased snap s s' t (append_one e) h sound done =
    step_append snap s s' t e h sound.0.index done
redo-IsRebased snap s s' t (set_state st) h sound done = (
  record s' { hard_state = st },
  refl,
  subst (λ x. IsRebased snap x (record s' { hard_state = st })) (ok-injective done)
      (record { above = h.above; word = h.word; start = h.start; state = refl; suffix = h.suffix }),
)
redo-IsRebased snap s s' t (truncate_above meta) h sound done = (
  settle meta (truncate_suffix s' meta.index),
  refl,
  subst (λ x. IsRebased snap x (settle meta (truncate_suffix s' meta.index))) (ok-injective done)
      (step_truncate snap s s' meta h sound.0),
)

-- A log that applies to the state before a snapshot applies to the snapshot too. If it goes on
-- beyond the snapshot, the entries that it leaves there are those above the snapshot; the hard
-- state is the same.
pub redo_all-IsRebased :
    (snap : Snapshot) (s s' t : Storage) (rs : List Record)
    → IsRebased snap s s'
    → AllSound rs
    → redo_all s rs ≡ ok t
    → (t' : Storage) × (redo_all s' rs ≡ ok t') × IsRebased snap t t'
unfolding redo_all
redo_all-IsRebased snap s s' t [] h sound done =
    (s', refl, subst (λ x. IsRebased snap x s') (ok-injective done) h)
redo_all-IsRebased snap s s' t (r ∷ rs) h sound done =
    let (u, first, later) = and_then-eq-ok (redo s r) (λ x. redo_all x rs) done in
    let (u', first', step) = redo-IsRebased snap s s' u r h sound.0 first in
    let (t', later', final) = redo_all-IsRebased snap u u' t rs step sound.1 later in
    (t', ap (λ o. and_then o λ x. redo_all x rs) first' ∙ later', final)
