-- ===== src/Storage/Mem/Append.antt =====
-- storage/mem/mem.go, Append: the log after an append.
use parallax_kv.Base.{
  ℕ, zero, suc, ◌+◌, ◌-◌, ◌<◌, ◌≤◌, ◌≡◌, refl, ap, ◌∙◌, Bool, true, ◌&&◌, none, some, List, [], ◌∷◌,
  ◌++◌, arith, length, get_elem?, take, drop, leb, ltb, add64, sub64, ◌==◌, nat_eq, if◌then◌else◌,
  Bool-cases, inl, inr, length-take, get_elem?-take, get_elem?-append, get_elem?-drop,
}
use parallax_kv.Raft.Types.{Entry}
use parallax_kv.Storage.Mem.{
  Storage, offset, append_entries, splice, first_entry_index, last_entry_index,
}
use parallax_kv.Storage.Mem.Lookup.{Fits, entry_at}

-- Entries at consecutive indexes, from `first` on.
unfoldable pub contiguous : ℕ → List Entry → Bool
contiguous first [] = true
contiguous first (e ∷ es) = let rest = contiguous (first + 1) es in e.index == first && rest

pub last_entry_index-contiguous :
    (e : Entry) (es : List Entry) (first : ℕ)
    → contiguous first (e ∷ es) ≡ true
    → last_entry_index e es ≡ first + length es
unfolding contiguous
last_entry_index-contiguous e [] first h = ground arith
last_entry_index-contiguous e (e' ∷ es) first h =
    ground (arith, last_entry_index-contiguous e' es (first + 1))

-- A slice of contiguous entries starts at its place.
pub first_entry_index-drop :
    (n : ℕ) (es : List Entry) (first : ℕ)
    → contiguous first es ≡ true
    → n < length es
    → first_entry_index (drop n es) ≡ some (first + n)
unfolding contiguous
first_entry_index-drop n [] first c h = absurd (omega arith)
first_entry_index-drop zero (e ∷ es) first c h = ground arith
first_entry_index-drop (suc n) (e ∷ es) first c h =
    ground (arith, first_entry_index-drop n es (first + 1))

pub contiguous-drop :
    (n : ℕ) (es : List Entry) (first : ℕ)
    → contiguous first es ≡ true
    → contiguous (first + n) (drop n es) ≡ true
unfolding contiguous
contiguous-drop zero es first c = ap (λ k. contiguous k es) {y = first} (omega arith) ∙ c
contiguous-drop (suc n) [] first c = refl
contiguous-drop (suc n) (e ∷ es) first c =
    ap (λ k. contiguous k (drop n es)) {y = first + 1 + n} (omega arith)
    ∙ contiguous-drop n es (first + 1) (ground arith)

-- `k` is the log `s` overwritten by `es` from `first` on.
pub record IsOverwritten (first : ℕ) (es : List Entry) (s k : Storage) : Type 0 where
  pub snapshot : k.snapshot ≡ s.snapshot
  pub below : (i : ℕ) → i < first → entry_at k i ≡ entry_at s i
  pub from : (i : ℕ) → first ≤ i → offset s < i → entry_at k i ≡ get_elem? es (i - first)

-- New entries behind the first ones of the log.
spliced :
    (s : Storage) (new : List Entry) (at i : ℕ)
    → offset s < at
    → at ≤ offset s + length s.entries + 1
    → entry_at (record s { entries = take (at - offset s - 1) s.entries ++ new }) i
      ≡ (if ltb i at then entry_at s i else get_elem? new (i - at))
unfolding entry_at
spliced s new at i lo hi =
    let n = at - offset s - 1 in
    let cut : length (take n s.entries) ≡ n = omega (arith, length-take n s.entries) in
    elim (Bool-cases (leb i (offset s))) [
      | inl low ↦ ground (arith, low)
      | inr f ↦ elim (Bool-cases (ltb i at)) [
        | inl t ↦
            rw (f, t, get_elem?-append (take n s.entries) new (i - offset s - 1))
              (ground (arith, cut, get_elem?-take n s.entries (i - offset s - 1)))
        | inr g ↦
            let place : i - offset s - 1 - length (take n s.entries) ≡ i - at = ground arith in
            rw (f, g, get_elem?-append (take n s.entries) new (i - offset s - 1), place)
              (ground (arith, cut))
      ]
    ]

splice-none :
    (s : Storage) (new : List Entry) (at : ℕ)
    → Fits s
    → offset s < at
    → at ≤ offset s + length s.entries + 1
    → splice s new at ≡ (record s { entries = take (at - offset s - 1) s.entries ++ new }, none)
unfolding splice
splice-none s new at f lo hi =
    let fits = f.fits in
    let place : sub64 at (add64 (offset s) 1) ≡ at - offset s - 1 = ground arith in
    rw place (ground arith)

-- AppendEntries, of contiguous entries that leave no gap behind the log and reach beyond the
-- snapshot, returns no error and does not panic, also if they start at or below the snapshot.
-- The snapshot stays; below the first new index every entry is as before, and from there on,
-- above the snapshot, the entries are the new ones and end with them. The indexes of the log fit
-- a word.
pub append_entries-IsOverwritten :
    (s : Storage) (e : Entry) (es : List Entry)
    → Fits s
    → contiguous e.index (e ∷ es) ≡ true
    → e.index ≤ offset s + length s.entries + 1
    → offset s < e.index + length es
    → (k : Storage) × (append_entries s (e ∷ es) ≡ some (k, none))
      × IsOverwritten e.index (e ∷ es) s k
unfolding append_entries entry_at
append_entries-IsOverwritten s e es f c gap reaches = elim (Bool-cases (leb e.index (offset s))) [
  | inl t ↦
      let fits = f.fits in
      let n = offset s + 1 - e.index in
      let ends = last_entry_index-contiguous e es e.index c in
      let first : first_entry_index (drop n (e ∷ es)) ≡ some (offset s + 1) =
        first_entry_index-drop n (e ∷ es) e.index c (ground arith) ∙ ap some (ground arith) in
      let cut : sub64 (add64 (offset s) 1) e.index ≡ n = ground arith in
      let spliced_at =
        splice-none s (drop n (e ∷ es)) (offset s + 1) f (omega arith) (omega arith) in
      (
        record s { entries = take (offset s + 1 - offset s - 1) s.entries ++ drop n (e ∷ es) },
        rw cut (ground (arith, ends, first, spliced_at)),
        record {
          snapshot = refl;
          below = λ i h.
              spliced s (drop n (e ∷ es)) (offset s + 1) i (omega arith) (omega arith)
              ∙ ground arith;
          from = λ i h b.
              spliced s (drop n (e ∷ es)) (offset s + 1) i (omega arith) (omega arith)
              ∙ ground (
                arith,
                get_elem?-drop n (e ∷ es) (i - (offset s + 1)),
                ap (get_elem? (e ∷ es)) {x = n + (i - (offset s + 1))} {y = i - e.index}
                    (ground arith),
              );
        },
      )
  | inr g ↦
      let fits = f.fits in
      let ends = last_entry_index-contiguous e es e.index c in
      let spliced_at = splice-none s (e ∷ es) e.index f (ground arith) gap in
      (
        record s { entries = take (e.index - offset s - 1) s.entries ++ e ∷ es },
        ground (arith, spliced_at, ends),
        record {
          snapshot = refl;
          below = λ i h. spliced s (e ∷ es) e.index i (ground arith) gap ∙ ground arith;
          from = λ i h b. spliced s (e ∷ es) e.index i (ground arith) gap ∙ ground arith;
        },
      )
]
