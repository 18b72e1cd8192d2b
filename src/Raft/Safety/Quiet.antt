-- ===== src/Raft/Safety/Quiet.antt =====
-- The handlers of raft/ that leave term, vote, role and membership alone, and never lower the
-- commit index.
use parallax_kv.Base.{
  ℕ, ◌≤◌, ◌≡◌, refl, ap, sym, ◌∙◌, Bool, true, false, Option, none, some, List, [], ◌∷◌, Outcome,
  ok, err, arith, Bytes, if◌then◌else◌, min, leb, ◌==◌, nat_eq, length, sub64, not,
}
use native.Mathlib.Nat.{le_refl}
use parallax_kv.Base.Returns.{Returns}
use parallax_kv.Raft.Types.{Message, Entry}
use parallax_kv.Raft.LogStorage.{StorageError}
use parallax_kv.Raft.Progress.{Progress}
use parallax_kv.Raft.Log.{RaftLog}
use parallax_kv.Raft.Log.Watermarks.{Commits, append-Commits, maybe_commit-Commits}
use parallax_kv.Raft.Core.{Raft, Done, on_log, send}
use parallax_kv.Raft.Keeps.{
  Keeps, IsPreorder, keeps_rules, Keeps-if, Keeps-bind, Keeps-modify, Keeps-reads, Keeps-on_log,
  Keeps-gets, Keeps-pure, Keeps-for_each,
}
use parallax_kv.Raft.Reads.{
  bcast_heartbeat_with_ctx, bcast_heartbeat, send_read_index, release_pending_read_index_messages,
  heartbeat_to, confirm_read_index,
}
use parallax_kv.Raft.Replication.{
  send_snapshot, send_append, send_from, with_prev_term, with_entries, bcast_append, append_to,
  maybe_commit, update_progress, append_entry,
}

pub record Quiet (r s : Raft) : Type 0 where
  pub term : s.term ≡ r.term
  pub vote : s.vote ≡ r.vote
  pub state : s.state ≡ r.state
  pub id : s.id ≡ r.id
  pub peers : s.peers ≡ r.peers
  pub commits : r.raft_log.committed ≤ s.raft_log.committed

pub Quiet-order : IsPreorder Quiet
Quiet-order = record { reflexive = λ r. ground arith; transitive = λ r s t p q. ground arith }

pub send-Quiet : (m : Message) → Keeps Quiet (send m)
unfolding send
send-Quiet m = record { at = λ r u s e. ground arith }

pub ruleset quiet_rules = (Quiet-order, keeps_rules, send-Quiet, refl, le_refl)

heartbeat_to-Quiet : (ctx : Bytes) (id : ℕ) → Keeps Quiet (heartbeat_to ctx id)
unfolding heartbeat_to
heartbeat_to-Quiet ctx id = search quiet_rules depth 14

pub bcast_heartbeat_with_ctx-Quiet : (ctx : Bytes) → Keeps Quiet (bcast_heartbeat_with_ctx ctx)
unfolding bcast_heartbeat_with_ctx
bcast_heartbeat_with_ctx-Quiet ctx = search (quiet_rules, heartbeat_to-Quiet) depth 14

pub bcast_heartbeat-Quiet : Keeps Quiet bcast_heartbeat
unfolding bcast_heartbeat
bcast_heartbeat-Quiet = search (quiet_rules, bcast_heartbeat_with_ctx-Quiet) depth 14

confirm_read_index-Quiet : (m : Message) → Keeps Quiet (confirm_read_index m)
unfolding confirm_read_index
confirm_read_index-Quiet m = search (quiet_rules, bcast_heartbeat_with_ctx-Quiet) depth 14

pub send_read_index-Quiet : (m : Message) → Keeps Quiet (send_read_index m)
unfolding send_read_index
send_read_index-Quiet m = search (quiet_rules, confirm_read_index-Quiet) depth 14

pub release_pending-Quiet : Keeps Quiet release_pending_read_index_messages
unfolding release_pending_read_index_messages
release_pending-Quiet = search (quiet_rules, send_read_index-Quiet) depth 18

-- What is returned as it was, or changed by an action of two branches.
send_snapshot-Quiet : (id : ℕ) → Keeps Quiet (send_snapshot id)
unfolding send_snapshot send
send_snapshot-Quiet id = record { at = λ r u s e. ground arith }

with_entries-Quiet :
    (id i t : ℕ) (o : Outcome StorageError (List Entry)) → Keeps Quiet (with_entries id i t o)
unfolding with_entries
with_entries-Quiet id i t (err e) = send_snapshot-Quiet id
with_entries-Quiet id i t (ok es) = search quiet_rules depth 14

with_prev_term-Quiet :
    (id next : ℕ) (o : Outcome StorageError ℕ) → Keeps Quiet (with_prev_term id next o)
unfolding with_prev_term
with_prev_term-Quiet id next (err e) = send_snapshot-Quiet id
with_prev_term-Quiet id next (ok t) =
    Keeps-bind Quiet-order _ _ (Keeps-reads Quiet-order _)
      (λ ents. with_entries-Quiet id (sub64 next 1) t ents)

send_from-Quiet : (id next : ℕ) → Keeps Quiet (send_from id next)
unfolding send_from
send_from-Quiet id next =
    Keeps-bind Quiet-order _ _ (Keeps-reads Quiet-order _) (with_prev_term-Quiet id next)

send_append_from :
    (id : ℕ) (o : Option Progress) (r : Raft) (u : Done) (s : Raft)
    → ◌≡◌ {A = Option (Done × Raft)}
        (elim o [ none ↦ some (tt, r) | some pr ↦ send_from id pr.next r ])
        (some (u, s))
    → Quiet r s
send_append_from id none r u s e = ground arith
send_append_from id (some pr) r u s e = (send_from-Quiet id pr.next).at r u s e

pub send_append-Quiet : (id : ℕ) → Keeps Quiet (send_append id)
unfolding send_append
send_append-Quiet id = record { at = λ r u s e. send_append_from id _ r u s e }

append_to-Quiet : (id : ℕ) → Keeps Quiet (append_to id)
unfolding append_to
append_to-Quiet id = search (quiet_rules, send_append-Quiet) depth 14

pub bcast_append-Quiet : Keeps Quiet bcast_append
unfolding bcast_append
bcast_append-Quiet = search (quiet_rules, append_to-Quiet) depth 14

-- An operation of the log that does not lower its commit index.
pub on_log-Quiet :
    {A : Type 0} (f : RaftLog → Option (A × RaftLog))
    → ((l : RaftLog) → Returns (λ p. Commits l p.1) (f l))
    → Keeps Quiet (on_log f)
on_log-Quiet f h = Keeps-on_log Quiet-order f (λ r a l e. record {
  term = refl;
  vote = refl;
  state = refl;
  id = refl;
  peers = refl;
  commits = ((h r.raft_log).at (a, l) e).le;
})

pub maybe_commit-Quiet : Keeps Quiet maybe_commit
unfolding maybe_commit
maybe_commit-Quiet =
    search (quiet_rules, on_log-Quiet, maybe_commit-Commits, release_pending-Quiet) depth 18

pub update_progress-Quiet : (id n : ℕ) → Keeps Quiet (update_progress id n)
unfolding update_progress
update_progress-Quiet id n = record { at = λ r u s e. ground arith }

pub append_entry-Quiet : (es : List Entry) → Keeps Quiet (append_entry es)
unfolding append_entry
append_entry-Quiet es =
    search (quiet_rules, on_log-Quiet, append-Commits, update_progress-Quiet, maybe_commit-Quiet)
      depth 22
