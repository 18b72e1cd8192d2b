-- ===== src/Raft/Unstable/Lookup.antt =====
-- raft/log.go, truncateAppend: what stands at each index of the unstable tail afterwards.
use parallax_kv.Base.{
  ℕ, ◌+◌, ◌-◌, ◌^◌, ◌<◌, ◌≤◌, ◌≡◌, refl, ◌∙◌, Option, none, some, List, ◌∷◌, ◌++◌, arith, length,
  get_elem?, take, leb, ltb, add64, ◌==◌, nat_eq, if◌then◌else◌, Bool-cases, inl, inr, length-take,
  get_elem?-take, get_elem?-append,
}
use parallax_kv.Raft.Types.{Entry}
use parallax_kv.Raft.Unstable.{Unstable, truncate_append, splice_at}

-- The entry at a log index.
unfoldable pub entry_at : Unstable → ℕ → Option Entry
entry_at u i = if ltb i u.offset then none else get_elem? u.entries (i - u.offset)

-- The entries from `first` on, over those that stand below.
unfoldable pub overlaid : Unstable → ℕ → List Entry → ℕ → Option Entry
overlaid u first es i = if ltb i first then entry_at u i else get_elem? es (i - first)

appended :
    (off first : ℕ) (xs ys : List Entry) (i : ℕ)
    → first ≡ off + length xs
    → (if ltb i off then none else get_elem? (xs ++ ys) (i - off)) ≡ (
        if ltb i first
        then (if ltb i off then none else get_elem? xs (i - off))
        else get_elem? ys (i - first))
appended off first xs ys i p = elim (Bool-cases (ltb i off)) [
  | inl t ↦ ground (arith, t)
  | inr f ↦
      let place : i - off - length xs ≡ i - first = ground arith in
      rw (f, get_elem?-append xs ys (i - off), place) (ground arith)
]

-- A cut at `first`, read below it.
taken :
    (off first : ℕ) (xs : List Entry) (i : ℕ) (x : Option Entry)
    → (if ltb i first
        then (if ltb i off then none else get_elem? (take (first - off) xs) (i - off))
        else x)
      ≡ (if ltb i first then (if ltb i off then none else get_elem? xs (i - off)) else x)
taken off first xs i x = elim (Bool-cases (ltb i first)) [
  | inr g ↦ rw g refl
  | inl t ↦ elim (Bool-cases (ltb i off)) [
    | inl below ↦ rw (t, below) refl
    | inr f ↦ rw (t, f) (get_elem?-take (first - off) xs (i - off) (ground arith))
  ]
]

-- truncateAppend, of entries that leave no gap behind the unstable tail, does not panic; from
-- the first new index on it holds the new entries and no others, and below it the old ones. The
-- indexes of the tail fit a word.
pub truncate_append_lem :
    (u : Unstable) (e : Entry) (es : List Entry)
    → u.offset + length u.entries < 2 ^ 64
    → e.index ≤ u.offset + length u.entries
    → (v : Unstable) × (truncate_append u (e ∷ es) ≡ some v)
      × ((i : ℕ) → entry_at v i ≡ overlaid u e.index (e ∷ es) i)
unfolding truncate_append splice_at entry_at overlaid
truncate_append_lem u e es fits gap =
    elim (Bool-cases (e.index == add64 u.offset (length u.entries))) [
      | inl end ↦ (
        record u { entries = u.entries ++ e ∷ es },
        rw end refl,
        λ i. appended u.offset e.index u.entries (e ∷ es) i (ground arith),
      )
      | inr f ↦ elim (Bool-cases (leb e.index u.offset)) [
        | inl before ↦ (
          record u { entries = e ∷ es; offset = e.index },
          rw (f, before) refl,
          λ i. ground arith,
        )
        | inr g ↦
            let n = e.index - u.offset in
            let cut : length (take n u.entries) ≡ n = omega (arith, length-take n u.entries) in
            (
              record u { entries = take n u.entries ++ e ∷ es },
              ground arith,
              λ i.
                  appended u.offset e.index (take n u.entries) (e ∷ es) i (ground arith)
                  ∙ taken u.offset e.index u.entries i _,
            )
      ]
    ]
