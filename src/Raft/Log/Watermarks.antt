-- ===== src/Raft/Log/Watermarks.antt =====
-- raft/log.go: the commit index never falls.
use parallax_kv.Base.{ℕ, ◌≤◌, none, List, arith, leb, sub64, add64, ◌==◌, nat_eq, length, min}
use parallax_kv.Base.Panics.{slice_from}
use parallax_kv.Base.Returns.{Returns, Returns-none, Returns-some, Returns-if, Returns-bind}
use parallax_kv.Raft.Types.{Entry}
use parallax_kv.Raft.Log.{
  RaftLog, match_term, find_conflict, append, commit_to, append_conflict, maybe_append,
  maybe_commit,
}

-- The commit index of `l'` is not below that of `l`.
pub record Commits (l l' : RaftLog) : Type 0 where
  pub le : l.committed ≤ l'.committed

pub Commits-refl : (l : RaftLog) → Commits l l
Commits-refl l = record { le = omega arith }

pub Commits-trans : {a b c : RaftLog} → Commits a b → Commits b c → Commits a c
Commits-trans p q = record { le = omega (arith, p.le, q.le) }

pub commit_to-Commits : (l : RaftLog) (n : ℕ) → Returns (Commits l) (commit_to l n)
unfolding commit_to
commit_to-Commits l n = record { at = λ l' h. record { le = ground arith } }

pub append-Commits : (l : RaftLog) (es : List Entry) → Returns (λ r. Commits l r.1) (append l es)
unfolding append
append-Commits l es = record { at = λ r h. record { le = ground arith } }

append_conflict-Commits :
    (l : RaftLog) (i : ℕ) (es : List Entry) (c : ℕ) → Returns (Commits l) (append_conflict l i es c)
unfolding append_conflict
append_conflict-Commits l i es c =
    Returns-if (c == 0) _ _ (λ _. Returns-some l (Commits-refl l))
      λ _.
        Returns-if (leb c l.committed) _ _ (λ _. Returns-none)
          λ _. Returns-bind (slice_from es (sub64 c (add64 i 1))) _ λ new _.
            Returns-bind (append l new) _ λ r e. Returns-some r.1 ((append-Commits l new).at r e)

pub maybe_append-Commits :
    (l : RaftLog) (i t c : ℕ) (es : List Entry)
    → Returns (λ r. Commits l r.1) (maybe_append l i t c es)
unfolding maybe_append
maybe_append-Commits l i t c es = Returns-bind (match_term l i t) _ λ same _.
    Returns-if same _ _
      (λ _. Returns-bind (find_conflict l es) _ λ conflict _.
        Returns-bind (append_conflict l i es conflict) _ λ l' e.
          Returns-bind (commit_to l' (min c (add64 i (length es)))) _ λ l'' e'. Returns-some _ (
            Commits-trans ((append_conflict-Commits l i es conflict).at l' e)
              ((commit_to-Commits l' _).at l'' e')))
      (λ _. Returns-some (none, l) (Commits-refl l))

pub maybe_commit-Commits :
    (l : RaftLog) (n t : ℕ) → Returns (λ r. Commits l r.1) (maybe_commit l n t)
unfolding maybe_commit
maybe_commit-Commits l n t = record { at = λ r h. record { le = grind (arith, commit_to-Commits) } }
