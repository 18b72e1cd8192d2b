-- ===== src/Raft/Step/Roles.antt =====
-- raft/handlers.go: the dispatch of a message by the role of the node.
use parallax_kv.Base.{Bool, true, false, not, none, some, leb, nat_eq, if◌then◌else◌}
use parallax_kv.Base.GoMap
use parallax_kv.Raft.Types.{
  MessageType, msg_pre_vote_resp, msg_vote_resp, msg_append, msg_append_resp, msg_heartbeat,
  msg_heartbeat_resp, msg_install_snapshot, msg_install_snapshot_resp, Message, StateType,
  state_pre_candidate,
}
use parallax_kv.Raft.Core.{
  Action, Done, ◌>>=◌, ◌>>◌, pure, gets, modify, when, no_node, quorum, record_vote, tally_granted,
  tally_rejected,
}
use parallax_kv.Raft.Replication.{bcast_append, send_append, update_progress}
use parallax_kv.Raft.Election.{
  become_follower, become_candidate, become_leader, solicit_votes_as_candidate,
}
use parallax_kv.Raft.Handlers.{
  handle_append, handle_heartbeat, handle_snapshot, handle_append_resp, handle_heartbeat_resp,
}

-- a message of the leader, to a follower
unfoldable pub from_leader : Message → Action Done
from_leader m = modify (λ r. record r { election_elapsed = 0; lead = m.from })

unfoldable pub follow : MessageType → Message → Action Done
unfolding from_leader
follow msg_append m = from_leader m >> handle_append m
follow msg_heartbeat m = from_leader m >> handle_heartbeat m
follow msg_install_snapshot m = from_leader m >> handle_snapshot m
follow t m = pure tt

unfoldable pub step_follower : Message → Action Done
unfolding follow
step_follower m = follow m.type m

abbrev pub is_pre_candidate : StateType → Bool
is_pre_candidate state_pre_candidate = true
is_pre_candidate _ = false

-- a majority of votes
unfoldable pub win : Action Done
win = do
  pre ← gets (λ r. is_pre_candidate r.state)
  if pre then become_candidate >> solicit_votes_as_candidate else become_leader >> bcast_append

unfoldable pub lose : Action Done
lose = do term ← gets (λ r. r.term); become_follower term no_node

unfoldable pub count_ballot : Message → Action Done
unfolding win lose
count_ballot m = do
  record_vote m.from (not m.reject)
  won ← gets (λ r. leb (quorum r) (tally_granted r))
  lost ← gets (λ r. leb (quorum r) (tally_rejected r))
  if won then win else when lost lose

unfoldable pub contend : MessageType → Message → Action Done
contend msg_append m = become_follower m.term m.from >> handle_append m
contend msg_heartbeat m = become_follower m.term m.from >> handle_heartbeat m
contend msg_install_snapshot m = become_follower m.term m.from >> handle_snapshot m
contend msg_vote_resp m = do
  pre ← gets (λ r. is_pre_candidate r.state)
  when (not pre) (count_ballot m)
contend msg_pre_vote_resp m = do
  pre ← gets (λ r. is_pre_candidate r.state)
  when pre (count_ballot m)
contend t m = pure tt

unfoldable pub step_candidate : Message → Action Done
unfolding contend
step_candidate m = contend m.type m

-- an acknowledged snapshot
unfoldable pub snapshot_acked : Message → Action Done
snapshot_acked m r = elim (GoMap.get r.prs m.from) [
  | none ↦ some (tt, r)
  | some pr ↦ (update_progress m.from m.log_index >>= λ _. send_append m.from) r
]

unfoldable pub preside : MessageType → Message → Action Done
unfolding snapshot_acked
preside msg_append_resp m = handle_append_resp m
preside msg_heartbeat_resp m = handle_heartbeat_resp m
preside msg_install_snapshot_resp m = snapshot_acked m
preside t m = pure tt

unfoldable pub step_leader : Message → Action Done
unfolding preside
step_leader m = preside m.type m
