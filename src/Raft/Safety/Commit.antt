-- ===== src/Raft/Safety/Commit.antt =====
-- raft/raft.go, maybeCommit: only what a majority has, of the leader's own term, is committed.
use parallax_kv.Base.{
  ℕ, ◌≤◌, ◌<◌, ◌≡◌, refl, sym, subst, ap, ◌∙◌, Bool, true, false, some, List, Outcome, Bytes, arith,
  if◌then◌else◌, nat_eq, Option-cases, inl, inr,
}
use parallax_kv.Raft.Types.{Message}
use parallax_kv.Raft.LogStorage.{StorageError}
use parallax_kv.Raft.Log
use parallax_kv.Raft.Log.{RaftLog, or_zero}
use parallax_kv.Raft.Core.{Raft, ◌>>=◌, pure, reads, on_log, quorum, send}
use parallax_kv.Raft.Keeps.{
  Keeps, IsPreorder, keeps_rules, >>=-eq-some, reads-eq-some, on_log-eq-some,
}
use parallax_kv.Raft.Reads.{
  heartbeat_to, bcast_heartbeat_with_ctx, confirm_read_index, send_read_index,
  release_pending_read_index_messages,
}
use parallax_kv.Raft.Replication.{matches, majority_index, maybe_commit, quorum_match}
use parallax_kv.Raft.Replication.Quorum.{at_least, quorum_match_lem}

-- The log is left alone.
record SameLog (r s : Raft) : Type 0 where
  same : s.raft_log ≡ r.raft_log

SameLog-order : IsPreorder SameLog
SameLog-order = record {
  reflexive = λ r. record { same = refl };
  transitive = λ r s t p q. record { same = q.same ∙ p.same };
}

send-SameLog : (m : Message) → Keeps SameLog (send m)
unfolding send
send-SameLog m = record { at = λ r u s e. ground arith }

ruleset same_log_rules = (SameLog-order, keeps_rules, send-SameLog, refl)

heartbeat_to-SameLog : (ctx : Bytes) (id : ℕ) → Keeps SameLog (heartbeat_to ctx id)
unfolding heartbeat_to
heartbeat_to-SameLog ctx id = search same_log_rules depth 14

bcast_heartbeat-SameLog : (ctx : Bytes) → Keeps SameLog (bcast_heartbeat_with_ctx ctx)
unfolding bcast_heartbeat_with_ctx
bcast_heartbeat-SameLog ctx = search (same_log_rules, heartbeat_to-SameLog) depth 14

send_read_index-SameLog : (m : Message) → Keeps SameLog (send_read_index m)
unfolding send_read_index confirm_read_index
send_read_index-SameLog m = search (same_log_rules, bcast_heartbeat-SameLog) depth 14

release_pending-SameLog : Keeps SameLog release_pending_read_index_messages
unfolding release_pending_read_index_messages
release_pending-SameLog = search (same_log_rules, send_read_index-SameLog) depth 18

-- The commit index of `l` is agreed on by `q` of the peers whose Match is `ms`, and no higher index is;
-- its entry has the term `t`.
pub record Agreed (r : Raft) (l : RaftLog) : Type 0 where
  pub matched : List ℕ
  pub read : matches r r.peers ≡ some matched
  pub majority : quorum r ≤ at_least l.committed matched
  pub highest : (w : ℕ) → l.committed < w → at_least w matched < quorum r
  pub entry_term : Outcome StorageError ℕ
  pub held : Log.term r.raft_log l.committed ≡ some entry_term
  pub current : or_zero entry_term ≡ r.term
  pub advanced : r.raft_log.committed < l.committed

log_maybe_commit-Commits :
    (l : RaftLog) (n t : ℕ) (l' : RaftLog)
    → Log.maybe_commit l n t ≡ some (true, l')
    → (l'.committed ≡ n)
      × (l.committed < n)
      × (o : Outcome StorageError ℕ) × (Log.term l n ≡ some o)
      × (or_zero o ≡ t)
unfolding Log.maybe_commit Log.commit_to
log_maybe_commit-Commits l n t l' e = elim (Option-cases (Log.term l n)) [
  | inl stuck ↦ ground (arith, stuck)
  | inr (o, found) ↦ (ground (arith, found), ground (arith, found), o, found, ground (arith, found))
]

majority_index-read :
    (r : Raft) (v : ℕ)
    → majority_index r ≡ some v
    → (ms : List ℕ) × (matches r r.peers ≡ some ms) × (quorum_match ms (quorum r) ≡ some v)
unfolding majority_index
majority_index-read r v e = elim (Option-cases (matches r r.peers)) [
  | inl stuck ↦ ground (arith, stuck)
  | inr (ms, found) ↦ (ms, found, ground (arith, found))
]

assembled :
    (r : Raft) (v : ℕ) (l : RaftLog)
    → majority_index r ≡ some v
    → Log.maybe_commit r.raft_log v r.term ≡ some (true, l)
    → Agreed r l
assembled r v l index advance =
    let (ms, read, chosen) = majority_index-read r v index in
    let (at, above, o, held, current) = log_maybe_commit-Commits r.raft_log v r.term l advance in
    let (majority, highest) = quorum_match_lem ms (quorum r) v chosen in
    record {
      matched = ms;
      read = read;
      majority = subst (λ c. quorum r ≤ at_least c ms) (sym at) majority;
      highest = λ w h. highest w (omega arith);
      entry_term = o;
      held = ap (Log.term r.raft_log) at ∙ held;
      current = current;
      advanced = omega arith;
    }

-- What follows the log's operation leaves the log alone.
released :
    (b : Bool) (k s : Raft)
    → (if b then release_pending_read_index_messages >>= (λ _. pure true) else pure false) k
      ≡ some (true, s)
    → (b ≡ true) × (s.raft_log ≡ k.raft_log)
released false k s e = cc
released true k s e =
    let (u, t, done, rest) = >>=-eq-some release_pending_read_index_messages _ k e in
    let same : t ≡ s = ground arith in
    (refl, ap (λ z. z.raft_log) (sym same) ∙ (release_pending-SameLog.at k u t done).same)

logged :
    (r s : Raft) (v : ℕ)
    → majority_index r ≡ some v
    → (on_log (λ l. Log.maybe_commit l v r.term) >>= λ advanced.
          if advanced then release_pending_read_index_messages >>= (λ _. pure true) else pure false)
        r
      ≡ some (true, s)
    → Agreed r s.raft_log
logged r s v index e =
    let (adv, k, done, rest) = >>=-eq-some (on_log (λ l. Log.maybe_commit l v r.term)) _ r e in
    let (l, advance, changed) = on_log-eq-some (λ l. Log.maybe_commit l v r.term) r done in
    let (went, kept) = released adv k s rest in
    let same : l ≡ s.raft_log = sym (kept ∙ ap (λ z. z.raft_log) changed) in
    subst (Agreed r) same (
      assembled r v l index
        (subst (λ b. Log.maybe_commit r.raft_log v r.term ≡ some (b, l)) went advance))

-- When maybeCommit reports that it advanced the commit index, the new index is higher than the
-- old one, a quorum of the peers has a Match that reaches it, no higher index has such a quorum,
-- and its entry has the leader's term in the leader's log.
pub maybe_commit-Agreed : (r s : Raft) → maybe_commit r ≡ some (true, s) → Agreed r s.raft_log
unfolding maybe_commit
maybe_commit-Agreed r s e =
    let (v, k, read, rest) = >>=-eq-some (reads majority_index) _ r e in
    let (index, same) = reads-eq-some majority_index r read in
    logged r s v index (
      subst
        (λ z.
          (on_log (λ l. Log.maybe_commit l v z.term) >>= λ advanced.
          if advanced then release_pending_read_index_messages >>= (λ _. pure true) else pure false)
            z
          ≡ some (true, s))
        same rest)
