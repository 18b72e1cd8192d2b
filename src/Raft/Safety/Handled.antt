-- ===== src/Raft/Safety/Handled.antt =====
-- The handlers of raft/handlers.go are quiet: they leave term, vote, role and membership alone,
-- and never lower the commit index.
use parallax_kv.Base.{
  ℕ, ◌≡◌, Bool, true, false, Option, none, some, arith, Bytes, if◌then◌else◌, leb, ltb, nat_eq,
  Bool-cases, Option-cases, inl, inr,
}
use parallax_kv.Base.Returns.{Returns, Returns-none, Returns-some}
use parallax_kv.Raft.Types.{Message, Snapshot}
use parallax_kv.Raft.Progress.{Progress}
use parallax_kv.Raft.Log
use parallax_kv.Raft.Log.{RaftLog}
use parallax_kv.Raft.Log.Watermarks.{Commits, maybe_append-Commits, commit_to-Commits}
use parallax_kv.Raft.Core.{Raft, Done, ◌>>◌, pure, modify}
use parallax_kv.Raft.Keeps.{Keeps, Keeps-bind, Keeps-pure}
use parallax_kv.Raft.Replication.{send_append}
use parallax_kv.Raft.Handlers.{
  handle_append, reply_append, reject_append, send_append_resp, commit_to, handle_heartbeat,
  restore, reply_snapshot, install, handle_snapshot, append_rejected, append_accepted,
  handle_append_resp, nudge, release, ack, handle_heartbeat_resp,
}
use parallax_kv.Raft.Safety.Quiet.{
  Quiet, Quiet-order, quiet_rules, on_log-Quiet, send_append-Quiet, bcast_append-Quiet,
  maybe_commit-Quiet, update_progress-Quiet,
}

send_append_resp-Quiet : (m : Message) (i : ℕ) → Keeps Quiet (send_append_resp m i)
unfolding send_append_resp
send_append_resp-Quiet m i = search quiet_rules

reject_append-Quiet : (m : Message) → Keeps Quiet (reject_append m)
unfolding reject_append
reject_append-Quiet m = search quiet_rules depth 14

reply_append-Quiet : (m : Message) (o : Option ℕ) → Keeps Quiet (reply_append m o)
unfolding reply_append
reply_append-Quiet m none = reject_append-Quiet m
reply_append-Quiet m (some last) = send_append_resp-Quiet m last

pub handle_append-Quiet : (m : Message) → Keeps Quiet (handle_append m)
unfolding handle_append
handle_append-Quiet m =
    search (quiet_rules, on_log-Quiet, maybe_append-Commits, reply_append-Quiet) depth 18

commit_to_log :
    (n : ℕ) (l : RaftLog)
    → Returns
        (λ (p : Done × RaftLog). Commits l p.1)
        (elim (Log.commit_to l n) [ none ↦ none | some l' ↦ some (tt, l') ])
commit_to_log n l = elim (Option-cases (Log.commit_to l n)) [
  | inl e ↦ rw e Returns-none
  | inr (l', e) ↦ rw e (Returns-some (tt, l') ((commit_to-Commits l n).at l' e))
]

pub commit_to-Quiet : (n : ℕ) → Keeps Quiet (commit_to n)
commit_to-Quiet n = on_log-Quiet _ (commit_to_log n)

pub handle_heartbeat-Quiet : (m : Message) → Keeps Quiet (handle_heartbeat m)
unfolding handle_heartbeat
handle_heartbeat-Quiet m = search (quiet_rules, commit_to-Quiet) depth 18

-- The snapshot that is installed lies above the commit index.
install_newer :
    (snap : Snapshot) (same : Bool) (r : Raft) (b : Bool) (s : Raft)
    → leb snap.metadata.index r.raft_log.committed ≡ false
    → (if same
          then commit_to snap.metadata.index >> pure false
          else modify (λ r. record r { raft_log = Log.restore r.raft_log snap }) >> pure true)
        r
      ≡ some (b, s)
    → Quiet r s
unfolding Log.restore
install_newer snap true r b s above e =
    (Keeps-bind Quiet-order _ _ (commit_to-Quiet snap.metadata.index)
        (λ u. Keeps-pure Quiet-order false)).at
      r b s e
install_newer snap false r b s above e = ground arith

pub restore-Quiet : (snap : Snapshot) → Keeps Quiet (restore snap)
unfolding restore
restore-Quiet snap = record {
  at = λ r b s e. elim (Bool-cases (leb snap.metadata.index r.raft_log.committed)) [
    | inl covered ↦ ground arith
    | inr above ↦
        elim (Option-cases (Log.match_term r.raft_log snap.metadata.index snap.metadata.term)) [
          | inl stuck ↦ ground arith
          | inr (same, found) ↦ install_newer snap same r b s above (ground arith)
        ]
  ];
}

reply_snapshot-Quiet : (m : Message) (b : Bool) → Keeps Quiet (reply_snapshot m b)
unfolding reply_snapshot
reply_snapshot-Quiet m b = search quiet_rules depth 14

install-Quiet : (m : Message) (o : Option Snapshot) → Keeps Quiet (install m o)
unfolding install
install-Quiet m none = search quiet_rules
install-Quiet m (some snap) = search (quiet_rules, restore-Quiet, reply_snapshot-Quiet) depth 14

pub handle_snapshot-Quiet : (m : Message) → Keeps Quiet (handle_snapshot m)
unfolding handle_snapshot
handle_snapshot-Quiet m = install-Quiet m m.snapshot

append_rejected-Quiet : (m : Message) (pr : Progress) → Keeps Quiet (append_rejected m pr)
unfolding append_rejected
append_rejected-Quiet m pr = search (quiet_rules, send_append-Quiet) depth 18

append_accepted-Quiet : (m : Message) → Keeps Quiet (append_accepted m)
unfolding append_accepted
append_accepted-Quiet m =
    search (quiet_rules, update_progress-Quiet, maybe_commit-Quiet, bcast_append-Quiet) depth 18

append_answered :
    (m : Message) (o : Option Progress) (bad : Bool) (r : Raft) (u : Done) (s : Raft)
    → ◌≡◌ {A = Option (Done × Raft)}
        (elim o [
          | none ↦ some (tt, r)
          | some pr ↦ if bad then append_rejected m pr r else append_accepted m r
        ])
        (some (u, s))
    → Quiet r s
append_answered m none bad r u s e = ground arith
append_answered m (some pr) true r u s e = (append_rejected-Quiet m pr).at r u s e
append_answered m (some pr) false r u s e = (append_accepted-Quiet m).at r u s e

pub handle_append_resp-Quiet : (m : Message) → Keeps Quiet (handle_append_resp m)
unfolding handle_append_resp
handle_append_resp-Quiet m = record { at = λ r u s e. append_answered m _ m.reject r u s e }

nudge_from :
    (from : ℕ) (o : Option Progress) (l : Option ℕ) (r : Raft) (u : Done) (s : Raft)
    → ◌≡◌ {A = Option (Done × Raft)}
        (elim o [
          | none ↦ some (tt, r)
          | some pr ↦ elim l [
            | none ↦ none
            | some last ↦ if ltb pr.matched last then send_append from r else some (tt, r)
          ]
        ])
        (some (u, s))
    → Quiet r s
nudge_from from none l r u s e = ground arith
nudge_from from (some pr) none r u s e = cc
nudge_from from (some pr) (some last) r u s e = elim (Bool-cases (ltb pr.matched last)) [
  | inl behind ↦ (send_append-Quiet from).at r u s (rw behind at e)
  | inr level ↦ ground arith
]

nudge-Quiet : (from : ℕ) → Keeps Quiet (nudge from)
unfolding nudge
nudge-Quiet from = record { at = λ r u s e. nudge_from from _ (Log.last_index r.raft_log) r u s e }

release-Quiet : (context : Bytes) → Keeps Quiet (release context)
unfolding release
release-Quiet context = search quiet_rules depth 8

ack-Quiet : (m : Message) → Keeps Quiet (ack m)
unfolding ack
ack-Quiet m = search (quiet_rules, release-Quiet) depth 14

pub handle_heartbeat_resp-Quiet : (m : Message) → Keeps Quiet (handle_heartbeat_resp m)
unfolding handle_heartbeat_resp
handle_heartbeat_resp-Quiet m = search (quiet_rules, nudge-Quiet, ack-Quiet) depth 14
