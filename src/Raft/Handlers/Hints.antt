-- ===== src/Raft/Handlers/Hints.antt =====
-- raft/log.go, findConflictByTerm, and the walk of decrHint: where a rejection points the leader.
use parallax_kv.Base.{
  ℕ, zero, suc, ◌<◌, ◌≤◌, ◌≡◌, ◌≢◌, ◌⊎◌, inl, inr, refl, ap, subst, ◌∙◌, Bool, true, false, Option,
  none, some, Outcome, ok, err, arith, leb,
}
use parallax_kv.Raft.LogStorage.{StorageError}
use parallax_kv.Raft.Log
use parallax_kv.Raft.Log.{RaftLog, or_zero}
use parallax_kv.Raft.Handlers.{walk_down, stop_with_term, find_conflict_by_term}

-- The entry at `i` has a term, which is higher than `t`.
pub record IsAbove (l : RaftLog) (t i : ℕ) : Type 0 where
  pub entry_term : ℕ
  pub held : Log.term l i ≡ some (ok entry_term)
  pub above : t < entry_term

-- The index where the walk stops: the highest one, from `top` down, whose term is not above `t`, or
-- cannot be read, or 0.
pub record StopsAt (l : RaftLog) (t top : ℕ) (hint : ℕ × ℕ) : Type 0 where
  pub below : hint.0 ≤ top
  pub passed : (i : ℕ) → hint.0 < i → i ≤ top → IsAbove l t i
  pub fits : hint.1 ≤ t
  pub at_zero : hint.0 ≡ 0 → hint.1 ≡ 0
  pub read :
      hint.0 ≢ 0
      → (o : Outcome StorageError ℕ) × (Log.term l hint.0 ≡ some o) × (or_zero o ≡ hint.1)

walk_down-StopsAt :
    (l : RaftLog) (t top : ℕ) (hint : ℕ × ℕ)
    → walk_down l t stop_with_term top ≡ some hint
    → StopsAt l t top hint
unfolding walk_down stop_with_term
walk_down-StopsAt l t zero hint e =
    let same : (0, 0) ≡ hint = cc in
    subst (StopsAt l t 0) same (record {
      below = omega arith;
      passed = λ i h g. absurd (omega arith);
      fits = omega arith;
      at_zero = λ h. refl;
      read = λ h. absurd (h refl);
    })
walk_down-StopsAt l t (suc n) hint e =
    read (walk_down-StopsAt l t n hint) (Log.term l (suc n)) refl e
  where
    here :
        (o : Outcome StorageError ℕ) (i x : ℕ)
        → (suc n, x) ≡ hint
        → Log.term l (suc n) ≡ some o
        → or_zero o ≡ x
        → x ≤ t
        → StopsAt l t (suc n) hint
    here o i x p q c le = subst (StopsAt l t (suc n)) p (record {
      below = omega arith;
      passed = λ j h g. absurd (omega arith);
      fits = le;
      at_zero = λ h. absurd (omega arith);
      read = λ h. (o, q, c);
    })

    split_at : (i : ℕ) → i ≤ suc n → (i ≤ n) ⊎ (i ≡ suc n)
    split_at i h = ground arith

    onward :
        (gt : ℕ)
        → Log.term l (suc n) ≡ some (ok gt)
        → t < gt
        → StopsAt l t n hint
        → StopsAt l t (suc n) hint
    onward gt q lt s = record {
      below = omega (arith, s.below);
      passed = λ i h g. elim (split_at i g) [
        | inl le ↦ s.passed i h le
        | inr eq ↦ record { entry_term = gt; held = ap (Log.term l) eq ∙ q; above = lt }
      ];
      fits = s.fits;
      at_zero = s.at_zero;
      read = s.read;
    }

    compared :
        (walk_down l t stop_with_term n ≡ some hint → StopsAt l t n hint)
        → (gt : ℕ) (b : Bool) → leb gt t ≡ b
        → Log.term l (suc n) ≡ some (ok gt)
        → ◌≡◌ {A = Option (ℕ × ℕ)}
            (elim b [ true ↦ some (suc n, gt) | false ↦ walk_down l t stop_with_term n ])
            (some hint)
        → StopsAt l t (suc n) hint
    compared ih gt true p q e = here (ok gt) n gt (cc) q refl (ground arith)
    compared ih gt false p q e = onward gt q (ground arith) (ih e)

    read :
        (walk_down l t stop_with_term n ≡ some hint → StopsAt l t n hint)
        → (o : Option (Outcome StorageError ℕ)) → Log.term l (suc n) ≡ o
        → ◌≡◌ {A = Option (ℕ × ℕ)}
            (elim o [
              | none ↦ none
              | some (err e) ↦ some (suc n, 0)
              | some (ok gt) ↦ elim (leb gt t) [
                | true ↦ some (suc n, gt)
                | false ↦ walk_down l t stop_with_term n
              ]
            ])
            (some hint)
        → StopsAt l t (suc n) hint
    read ih none p e = cc
    read ih (some (err x)) p e = here (err x) n 0 (cc) p refl (omega arith)
    read ih (some (ok gt)) p e = compared ih gt (leb gt t) refl p e

-- If findConflictByTerm does not panic, it returns an index that is not above the given one,
-- with the term that the log has there, or 0 where it has none or the index is 0. That term is
-- not above the given one, and every index between the two has an entry of a higher term.
pub find_conflict_by_term-StopsAt :
    (l : RaftLog) (index t : ℕ) (hint : ℕ × ℕ)
    → find_conflict_by_term l index t ≡ some hint
    → StopsAt l t index hint
unfolding find_conflict_by_term
find_conflict_by_term-StopsAt l index t hint e = walk_down-StopsAt l t index hint e
