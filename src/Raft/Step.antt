-- ===== src/Raft/Step.antt =====
-- raft/step.go.
mod Roles
unfoldable pub use Roles.*
use parallax_kv.Base.{
  Bool, true, false, not, ◌&&◌, ◌||◌, Option, none, some, [], ◌∷◌, ◌++◌, length, ltb, leb, ◌==◌,
  nat_eq, if◌then◌else◌, map,
}
use parallax_kv.Base.GoMap
use parallax_kv.Raft.Types.{
  MessageType, msg_unknown, msg_propose, msg_read_index, msg_pre_vote, msg_pre_vote_resp, msg_vote,
  msg_vote_resp, msg_append, msg_append_resp, msg_heartbeat, msg_heartbeat_resp,
  msg_install_snapshot, msg_install_snapshot_resp, Message, blank, Entry, entry_normal, StateType,
  state_follower, state_pre_candidate, state_candidate, state_leader,
}
use parallax_kv.Raft.Log
use parallax_kv.Raft.Core.{
  Raft, Action, Done, ◌>>=◌, ◌>>◌, pure, gets, modify, reads, when, no_node, quorum, send,
  record_vote, tally_granted, tally_rejected,
}
use parallax_kv.Raft.Reads.{is_leader, committed_entry_in_current_term, send_read_index}
use parallax_kv.Raft.Replication.{append_entry, bcast_append, send_append, update_progress}
use parallax_kv.Raft.Election.{
  become_follower, become_candidate, become_leader, solicit_votes_as_candidate,
}
use parallax_kv.Raft.Handlers.{
  handle_append, handle_heartbeat, handle_snapshot, handle_append_resp, handle_heartbeat_resp,
}

-- What Step returns: ErrNotLeader, or nil.
pub data StepError : Type 0 where
  not_leader : StepError

abbrev pub Returned : Type 0
Returned = Option StepError

abbrev pub returning : Action Done → Action Returned
returning m = m >>= λ _. pure none

-- The entries of a proposal, as normal entries.
abbrev pub normal : Entry → Entry
normal e = record e { type = entry_normal }

unfoldable pub step_propose : Message → Action Returned
step_propose m = do
  leader ← gets (λ r. is_leader r.state)
  let propose = append_entry (map normal m.entries) >> bcast_append
  if not leader
      then pure (some not_leader)
      else if length m.entries == 0
      then pure none
      else returning propose

unfoldable pub step_read_index : Message → Action Returned
step_read_index m = do
  leader ← gets (λ r. is_leader r.state)
  let accept = (do
    committed ← reads committed_entry_in_current_term
    if committed
        then send_read_index m
        else modify (λ r. record r {
          pending_read_index_messages = r.pending_read_index_messages ++ m ∷ [];
        }))
  if not leader then pure (some not_leader) else returning accept

-- the tests on a message's type
abbrev pub is_vote : MessageType → Bool
is_vote msg_vote = true
is_vote _ = false

abbrev pub is_pre_vote : MessageType → Bool
is_pre_vote msg_pre_vote = true
is_pre_vote _ = false

abbrev pub is_pre_vote_resp : MessageType → Bool
is_pre_vote_resp msg_pre_vote_resp = true
is_pre_vote_resp _ = false

abbrev pub vote_resp_type : MessageType → MessageType
vote_resp_type msg_pre_vote = msg_pre_vote_resp
vote_resp_type _ = msg_vote_resp

-- The leader's lease: a (pre)vote is refused while a leader is backed and the timer is young.
unfoldable pub has_lease : Message → Raft → Bool
has_lease m r =
    (is_vote m.type || is_pre_vote m.type)
    && (not (r.lead == no_node)
        && (not (r.vote == m.from) && ltb r.election_elapsed r.cfg.election_ticks))

unfoldable pub refuse_vote : Message → Action Done
refuse_vote m r =
    send
      (record (blank (vote_resp_type m.type)) {
        to = m.from;
        reject = true;
        term = if is_pre_vote m.type then m.term else r.term;
      })
      r

unfoldable pub msg_resp_type : MessageType → MessageType
msg_resp_type msg_append = msg_append_resp
msg_resp_type msg_heartbeat = msg_heartbeat_resp
msg_resp_type msg_install_snapshot = msg_install_snapshot_resp
msg_resp_type _ = msg_unknown

-- the reply to a message of an old term
unfoldable pub answer_stale : MessageType → Message → Action Done
answer_stale msg_append m = send (record (blank (msg_resp_type msg_append)) { to = m.from })
answer_stale msg_heartbeat m = send (record (blank (msg_resp_type msg_heartbeat)) { to = m.from })
answer_stale msg_install_snapshot m =
    send (record (blank (msg_resp_type msg_install_snapshot)) { to = m.from })
answer_stale msg_pre_vote m = do
  term ← gets (λ r. r.term)
  send (record (blank msg_pre_vote_resp) { to = m.from; term = term; reject = true })
answer_stale t m = pure tt

-- A higher term: step down, unless the message is a probe or a granted probe.
unfoldable pub adopt_term : Message → Action Done
adopt_term m =
    if is_pre_vote m.type || is_pre_vote_resp m.type && not m.reject
    then pure tt
    else become_follower m.term (if is_vote m.type then no_node else m.from)

-- The term rules; whether Step goes on.
unfoldable pub term_rules : Message → Action Bool
unfolding answer_stale adopt_term
term_rules m = do
  term ← gets (λ r. r.term)
  if m.term == 0
      then pure true
      else if ltb term m.term
      then adopt_term m >> pure true
      else if ltb m.term term
      then answer_stale m.type m >> pure false
      else pure true

-- The vote condition; `up_to_date` is the candidate's log against ours.
unfoldable pub grants : Message → Bool → Raft → Bool
grants m up_to_date r =
    if is_pre_vote m.type
    then up_to_date && ltb r.term m.term
    else (r.vote == m.from || (r.vote == no_node && r.lead == no_node || ltb r.term m.term))
      && up_to_date

unfoldable pub handle_vote_request : Message → Action Done
handle_vote_request m = do
  up_to_date ← reads (λ r. Log.is_up_to_date r.raft_log m.log_index m.log_term)
  grant ← gets (grants m up_to_date)
  when (not (is_pre_vote m.type) && grant)
      (modify (λ r. record r { vote = m.from; election_elapsed = 0 }))
  send (record (blank (vote_resp_type m.type)) {
    to = m.from;
    reject = not grant;
    term = if is_pre_vote m.type then m.term else 0;
  })

unfoldable pub by_role : StateType → Message → Action Done
by_role state_follower m = step_follower m
by_role state_pre_candidate m = step_candidate m
by_role state_candidate m = step_candidate m
by_role state_leader m = step_leader m

unfoldable pub dispatch : Message → Action Done
unfolding by_role
dispatch m = do
  state ← gets (λ r. r.state)
  if is_vote m.type || is_pre_vote m.type then handle_vote_request m else by_role state m

-- a peer's message
unfoldable pub step_peer : Message → Action Done
unfolding dispatch
step_peer m = do
  lease ← gets (has_lease m)
  let rules = (do go ← term_rules m; when go (dispatch m))
  if lease then refuse_vote m else rules

unfoldable pub step_by_type : MessageType → Message → Action Returned
step_by_type msg_propose m = step_propose m
step_by_type msg_read_index m = step_read_index m
step_by_type t m = returning (step_peer m)

unfoldable pub step : Message → Action Returned
unfolding step_by_type
step m = step_by_type m.type m
