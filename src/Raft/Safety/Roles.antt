-- ===== src/Raft/Safety/Roles.antt =====
-- raft/handlers.go: what a handler of one role does to the term, the vote and the commit index.
use parallax_kv.Base.{
  ◌+◌, ◌^◌, ◌<◌, ◌≤◌, ◌≡◌, refl, Bool, true, false, not, Option, none, some, arith, if◌then◌else◌,
  nat_eq,
}
use native.Mathlib.Nat.{le_refl}
use parallax_kv.Raft.Types.{
  MessageType, msg_pre_vote_resp, msg_vote_resp, msg_append, msg_append_resp, msg_heartbeat,
  msg_heartbeat_resp, msg_install_snapshot, msg_install_snapshot_resp, Message, StateType,
  state_follower, state_pre_candidate, state_candidate, state_leader,
}
use parallax_kv.Raft.Progress.{Progress}
use parallax_kv.Raft.Core.{Raft, Action, Done, ◌>>=◌, ◌>>◌, when, no_node, record_vote}
use parallax_kv.Raft.Keeps.{Keeps, keeps_rules, >>=-eq-some, Keeps-if, Keeps-bind, Keeps-pure}
use parallax_kv.Raft.Election.{
  become_follower, become_candidate, become_leader, solicit_votes_as_candidate,
}
use parallax_kv.Raft.Replication.{bcast_append, update_progress, send_append}
use parallax_kv.Raft.Handlers.{handle_append, handle_heartbeat, handle_snapshot}
use parallax_kv.Raft.Step.{
  by_role, step_follower, step_candidate, step_leader, follow, from_leader, contend, preside,
  snapshot_acked, count_ballot, win, lose,
}
use parallax_kv.Raft.Safety.Quiet.{
  Quiet, Quiet-order, bcast_append-Quiet, send_append-Quiet, update_progress-Quiet,
}
use parallax_kv.Raft.Safety.Handled.{
  handle_append-Quiet, handle_heartbeat-Quiet, handle_snapshot-Quiet, handle_append_resp-Quiet,
  handle_heartbeat_resp-Quiet,
}
use parallax_kv.Raft.Safety.Elections.{
  Steady, Steady-order, Quiet-Steady, Advances, Advances-order, Steady-Advances,
  become_follower-Steady, become_follower-Advances, record_vote-Steady,
}
use parallax_kv.Raft.Safety.Campaigns.{
  Campaigns, Steady-Campaigns, candidacy-Campaigns, become_leader_and_then-Steady,
}

ruleset steady_rules = (Steady-order, keeps_rules, Quiet-Steady, refl, le_refl)

from_leader-Steady : (m : Message) → Keeps Steady (from_leader m)
unfolding from_leader
from_leader-Steady m = search steady_rules depth 8

follow-Steady : (t : MessageType) (m : Message) → Keeps Steady (follow t m)
unfolding follow
follow-Steady msg_append m = search (steady_rules, from_leader-Steady, handle_append-Quiet) depth 8
follow-Steady msg_heartbeat m =
    search (steady_rules, from_leader-Steady, handle_heartbeat-Quiet) depth 8
follow-Steady msg_install_snapshot m =
    search (steady_rules, from_leader-Steady, handle_snapshot-Quiet) depth 8
follow-Steady _ m = search steady_rules depth 8

snapshot_from :
    (m : Message) (o : Option Progress) (r : Raft) (u : Done) (s : Raft)
    → ◌≡◌ {A = Option (Done × Raft)}
        (elim o [
          | none ↦ some (tt, r)
          | some pr ↦ (update_progress m.from m.log_index >>= λ _. send_append m.from) r
        ])
        (some (u, s))
    → Quiet r s
snapshot_from m none r u s e = ground arith
snapshot_from m (some pr) r u s e =
    (Keeps-bind Quiet-order _ _ (update_progress-Quiet m.from m.log_index)
        (λ _. send_append-Quiet m.from)).at
      r u s e

snapshot_acked-Quiet : (m : Message) → Keeps Quiet (snapshot_acked m)
unfolding snapshot_acked
snapshot_acked-Quiet m = record { at = λ r u s e. snapshot_from m _ r u s e }

preside-Steady : (t : MessageType) (m : Message) → Keeps Steady (preside t m)
unfolding preside
preside-Steady msg_append_resp m = search (steady_rules, handle_append_resp-Quiet) depth 8
preside-Steady msg_heartbeat_resp m = search (steady_rules, handle_heartbeat_resp-Quiet) depth 8
preside-Steady msg_install_snapshot_resp m = search (steady_rules, snapshot_acked-Quiet) depth 8
preside-Steady _ m = search steady_rules depth 8

lose-Steady : Keeps Steady lose
unfolding lose
lose-Steady = record { at = λ r u s e. become_follower-Steady no_node r u s e }

win-Campaigns : Keeps Campaigns win
unfolding win
win-Campaigns = record { at = λ r u s e. won r u s _ e }
  where
    won :
        (r : Raft) (u : Done) (s : Raft) (pre : Bool)
        → (if pre
              then become_candidate >> solicit_votes_as_candidate
              else become_leader >> bcast_append)
            r
          ≡ some (u, s)
        → Campaigns r s
    won r u s true e = candidacy-Campaigns.at r u s e
    won r u s false e = record {
      advances = λ fits.
          Steady-Advances
            ((become_leader_and_then-Steady bcast_append bcast_append-Quiet).at r u s e);
    }

count_ballot-Campaigns : (m : Message) → Keeps Campaigns (count_ballot m)
unfolding count_ballot
count_ballot-Campaigns m = record {
  at = λ r u s e.
      let (v, k, done, rest) = >>=-eq-some (record_vote m.from (not m.reject)) _ r e in
      Steady-Campaigns ((record_vote-Steady m.from (not m.reject)).at r v k done)
        (counted k u s _ _ rest);
}
  where
    counted :
        (r : Raft) (u : Done) (s : Raft) (a b : Bool)
        → (if a then win else when b lose) r ≡ some (u, s)
        → Campaigns r s
    counted r u s true b e = win-Campaigns.at r u s e
    counted r u s false b e = record {
      advances = λ fits.
          Steady-Advances
            ((Keeps-if Steady-order b _ _ lose-Steady (Keeps-pure Steady-order tt)).at r u s e);
    }

-- A leader's message that a candidate steps down for.
step_down-Advances :
    (h : Action Done) (m : Message) (r : Raft) (u : Done) (s : Raft)
    → Keeps Quiet h
    → r.term ≤ m.term
    → (become_follower m.term m.from >> h) r ≡ some (u, s)
    → Advances r s
step_down-Advances h m r u s q le e =
    let (v, k, done, rest) = >>=-eq-some (become_follower m.term m.from) _ r e in
    Advances-order.transitive r k s (become_follower-Advances m.term m.from r v k le done)
      (Steady-Advances ((Quiet-Steady q).at k u s rest))

when-Advances :
    (b : Bool) (h : Action Done) (r : Raft) (u : Done) (s : Raft)
    → Keeps Campaigns h
    → r.term + 1 < 2 ^ 64
    → when b h r ≡ some (u, s)
    → Advances r s
when-Advances true h r u s c fits e = (c.at r u s e).advances fits
when-Advances false h r u s c fits e = Steady-Advances ((Keeps-pure Steady-order tt).at r u s e)

contend-Advances :
    (t : MessageType) (m : Message) (r : Raft) (u : Done) (s : Raft)
    → r.term + 1 < 2 ^ 64
    → r.term ≤ m.term
    → contend t m r ≡ some (u, s)
    → Advances r s
unfolding contend
contend-Advances msg_append m r u s fits le e =
    step_down-Advances (handle_append m) m r u s (handle_append-Quiet m) le e
contend-Advances msg_heartbeat m r u s fits le e =
    step_down-Advances (handle_heartbeat m) m r u s (handle_heartbeat-Quiet m) le e
contend-Advances msg_install_snapshot m r u s fits le e =
    step_down-Advances (handle_snapshot m) m r u s (handle_snapshot-Quiet m) le e
contend-Advances msg_vote_resp m r u s fits le e =
    when-Advances _ (count_ballot m) r u s (count_ballot-Campaigns m) fits e
contend-Advances msg_pre_vote_resp m r u s fits le e =
    when-Advances _ (count_ballot m) r u s (count_ballot-Campaigns m) fits e
contend-Advances _ m r u s fits le e = Steady-Advances ((Keeps-pure Steady-order tt).at r u s e)

pub by_role-Advances :
    (k : StateType) (m : Message) (r : Raft) (u : Done) (s : Raft)
    → r.term + 1 < 2 ^ 64
    → r.term ≤ m.term
    → by_role k m r ≡ some (u, s)
    → Advances r s
unfolding by_role step_follower step_candidate step_leader
by_role-Advances state_follower m r u s fits le e =
    Steady-Advances ((follow-Steady m.type m).at r u s e)
by_role-Advances state_pre_candidate m r u s fits le e = contend-Advances m.type m r u s fits le e
by_role-Advances state_candidate m r u s fits le e = contend-Advances m.type m r u s fits le e
by_role-Advances state_leader m r u s fits le e =
    Steady-Advances ((preside-Steady m.type m).at r u s e)
