-- ===== src/Raft/Replication/Quorum.antt =====
-- raft/raft.go, maybeCommit: which index a majority of the peers has reached.
use parallax_kv.Base.{
  ℕ, suc, zero, ◌+◌, ◌-◌, ◌≤◌, ◌<◌, ◌≡◌, refl, subst, Bool, true, false, Option, none, some, List,
  [], ◌∷◌, arith, if◌then◌else◌, length, get_elem?, leb, ltb, insert_by, sort_by, Bool-cases, inl,
  inr,
}
use parallax_kv.Raft.Replication.{quorum_match}

-- How many of the indexes are `v` or higher.
unfoldable pub at_least : ℕ → List ℕ → ℕ
at_least v [] = 0
at_least v (x ∷ xs) = let n = at_least v xs in if leb v x then suc n else n

-- Sorting keeps the count.
at_least-insert : (v x : ℕ) (xs : List ℕ) → at_least v (insert_by leb x xs) ≡ at_least v (x ∷ xs)
unfolding at_least insert_by
at_least-insert v x [] = refl
at_least-insert v x (y ∷ ys) = ground (arith, at_least-insert v x ys)

at_least-sort : (v : ℕ) (xs : List ℕ) → at_least v (sort_by leb xs) ≡ at_least v xs
unfolding at_least sort_by
at_least-sort v [] = refl
at_least-sort v (x ∷ xs) = ground (arith, at_least-insert v x (sort_by leb xs), at_least-sort v xs)

length-insert : (x : ℕ) (xs : List ℕ) → length (insert_by leb x xs) ≡ suc (length xs)
unfolding insert_by
length-insert x [] = refl
length-insert x (y ∷ ys) = ground (arith, length-insert x ys)

length-sort : (xs : List ℕ) → length (sort_by leb xs) ≡ length xs
unfolding sort_by
length-sort [] = refl
length-sort (x ∷ xs) = omega (arith, length-insert x (sort_by leb xs), length-sort xs)

-- A sorted list: every element is at least the first, from each place on.
data All≥ (v : ℕ) : List ℕ → Type 0 where
  none_left : All≥ v []
  and_next : {x : ℕ} {xs : List ℕ} → v ≤ x → All≥ v xs → All≥ v (x ∷ xs)

data IsSorted : List ℕ → Type 0 where
  nil : IsSorted []
  cons : {x : ℕ} {xs : List ℕ} → All≥ x xs → IsSorted xs → IsSorted (x ∷ xs)

All≥-trans : (u v : ℕ) (xs : List ℕ) → u ≤ v → All≥ v xs → All≥ u xs
All≥-trans u v [] h none_left = none_left
All≥-trans u v (x ∷ xs) h (and_next le a) = and_next (omega arith) (All≥-trans u v xs h a)

All≥-insert : (u x : ℕ) (xs : List ℕ) → u ≤ x → All≥ u xs → All≥ u (insert_by leb x xs)
unfolding insert_by
All≥-insert u x [] h a = and_next h a
All≥-insert u x (y ∷ ys) h (and_next le a) = elim (Bool-cases (leb x y)) [
  | inl t ↦ rw t (and_next h (and_next le a))
  | inr f ↦ rw f (and_next le (All≥-insert u x ys h a))
]

insert-IsSorted : (x : ℕ) (xs : List ℕ) → IsSorted xs → IsSorted (insert_by leb x xs)
unfolding insert_by
insert-IsSorted x [] s = cons none_left nil
insert-IsSorted x (y ∷ ys) (cons a s) = elim (Bool-cases (leb x y)) [
  | inl t ↦ rw t (cons (and_next (ground arith) (All≥-trans x y ys (ground arith) a)) (cons a s))
  | inr f ↦ rw f (cons (All≥-insert y x ys (ground arith) a) (insert-IsSorted x ys s))
]

sort-IsSorted : (xs : List ℕ) → IsSorted (sort_by leb xs)
unfolding sort_by
sort-IsSorted [] = nil
sort-IsSorted (x ∷ xs) = insert-IsSorted x (sort_by leb xs) (sort-IsSorted xs)

All≥-at_least : (v : ℕ) (xs : List ℕ) → All≥ v xs → at_least v xs ≡ length xs
unfolding at_least
All≥-at_least v [] none_left = refl
All≥-at_least v (x ∷ xs) (and_next le a) = ground (arith, All≥-at_least v xs a)

-- From its place on, a sorted list has only elements that are at least as high.
sorted-at_least :
    (xs : List ℕ) (i v : ℕ) → IsSorted xs → get_elem? xs i ≡ some v → length xs ≤ at_least v xs + i
unfolding at_least
sorted-at_least [] i v s e = cc
sorted-at_least (x ∷ xs) zero v (cons a s) e =
    let same : x ≡ v = cc in ground (arith, All≥-at_least v xs (subst (λ z. All≥ z xs) same a))
sorted-at_least (x ∷ xs) (suc i) v (cons a s) e = ground (arith, sorted-at_least xs i v s e)

All≥-get : (u : ℕ) (xs : List ℕ) (i v : ℕ) → All≥ u xs → get_elem? xs i ≡ some v → u ≤ v
All≥-get u [] i v a e = cc
All≥-get u (x ∷ xs) zero v (and_next le a) e = let same : x ≡ v = cc in omega arith
All≥-get u (x ∷ xs) (suc i) v (and_next le a) e = All≥-get u xs i v a e

at_least-le : (w : ℕ) (xs : List ℕ) → at_least w xs ≤ length xs
unfolding at_least
at_least-le w [] = ground arith
at_least-le w (x ∷ xs) = ground (arith, at_least-le w xs)

-- What is higher than the element at a place stands after the place.
sorted-above :
    (xs : List ℕ) (i v w : ℕ)
    → IsSorted xs
    → get_elem? xs i ≡ some v
    → v < w
    → at_least w xs + i < length xs
unfolding at_least
sorted-above [] i v w s e h = cc
sorted-above (x ∷ xs) zero v w (cons a s) e h =
    let same : x ≡ v = cc in ground (arith, at_least-le w xs)
sorted-above (x ∷ xs) (suc i) v w (cons a s) e h =
    let le = All≥-get x xs i v a e in ground (arith, sorted-above xs i v w s e h)

-- The index that maybeCommit chooses from the Match of the peers is reached by at least a quorum
-- of them, and every higher index by fewer.
pub quorum_match_lem :
    (ms : List ℕ) (q v : ℕ)
    → quorum_match ms q ≡ some v
    → (q ≤ at_least v ms) × ((w : ℕ) → v < w → at_least w ms < q)
unfolding quorum_match
quorum_match_lem ms q v e = chosen (ltb (length ms) q) refl e
  where
    chosen :
        (b : Bool)
        → ltb (length ms) q ≡ b
        → ◌≡◌ {A = Option ℕ}
            (if b then none else get_elem? (sort_by leb ms) (length ms - q))
            (some v)
        → (q ≤ at_least v ms) × ((w : ℕ) → v < w → at_least w ms < q)
    chosen true p e = cc
    chosen false p e =
        let s = sort-IsSorted ms in
        (
          ground (
            arith,
            sorted-at_least (sort_by leb ms) (length ms - q) v s e,
            at_least-sort v ms,
            length-sort ms,
          ),
          λ w h. ground (
            arith,
            sorted-above (sort_by leb ms) (length ms - q) v w s e h,
            at_least-sort w ms,
            length-sort ms,
          ),
        )
