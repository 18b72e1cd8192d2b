-- ===== src/Raft/Election.antt =====
-- raft/raft.go: role transitions, timers and campaigns.
use parallax_kv.Base.{
  ℕ, suc, Bool, true, false, ◌&&◌, none, some, [], ◌∷◌, leb, add64, ◌==◌, nat_eq, if◌then◌else◌,
}
use parallax_kv.Base.GoMap
use parallax_kv.Raft.Types.{
  MessageType, msg_pre_vote, msg_vote, blank, StateType, state_follower, state_pre_candidate,
  state_candidate, state_leader, Entry, entry_noop,
}
use parallax_kv.Raft.Log
use parallax_kv.Raft.Core.{
  Raft, Action, Done, ◌>>=◌, ◌>>◌, pure, gets, modify, reads, when, for_each, no_node, quorum, send,
  reset, reset_randomized_election_timeout, past_election_timeout, promotable, record_vote,
  tally_granted,
}
use parallax_kv.Raft.Reads.{is_leader, bcast_heartbeat}
use parallax_kv.Raft.Replication.{append_entry}

unfoldable pub become_follower : ℕ → ℕ → Action Done
become_follower term lead = do
  reset term
  modify (λ r. record r { state = state_follower; lead = lead })

-- panics if the condition holds
abbrev pub panic_if : (Raft → Bool) → Action Done
panic_if b r = if b r then none else some (tt, r)

unfoldable pub become_pre_candidate : Action Done
become_pre_candidate = do
  panic_if (λ r. is_leader r.state)
  modify (λ r. record r {
    state = state_pre_candidate;
    votes = GoMap.empty;
    lead = no_node;
    election_elapsed = 0;
  })
  reset_randomized_election_timeout

unfoldable pub become_candidate : Action Done
become_candidate = do
  panic_if (λ r. is_leader r.state)
  term ← gets (λ r. r.term)
  reset (add64 term 1)
  modify (λ r. record r { vote = r.id; state = state_candidate })

abbrev pub is_follower : StateType → Bool
is_follower state_follower = true
is_follower _ = false

abbrev pub noop : Entry
noop = record { term = 0; index = 0; type = entry_noop; payload = [] }

unfoldable pub become_leader : Action Done
become_leader = do
  panic_if (λ r. is_follower r.state)
  term ← gets (λ r. r.term)
  reset term
  modify (λ r. record r { lead = r.id; state = state_leader })
  append_entry (noop ∷ [])

-- the body of the loop over the peers
unfoldable pub ask : MessageType → ℕ → ℕ → ℕ → ℕ → Action Done
ask t vote_term li lt id = do
  self ← gets (λ r. id == r.id)
  if self
      then pure tt
      else send (record (blank t) { to = id; term = vote_term; log_index = li; log_term = lt })

unfoldable pub request_votes : MessageType → ℕ → Action Done
unfolding ask
request_votes t vote_term = do
  li ← reads (λ r. Log.last_index r.raft_log)
  lt ← reads (λ r. Log.last_term r.raft_log)
  peers ← gets (λ r. r.peers)
  for_each peers (ask t vote_term li lt)

-- solicitVotes, up to what a (pre)candidate does that has won by its own vote
unfoldable pub solicit_with : Action Done → MessageType → ℕ → Action Done
solicit_with win t vote_term = do
  id ← gets (λ r. r.id)
  record_vote id true
  won ← gets (λ r. leb (quorum r) (tally_granted r))
  if won then win else request_votes t vote_term

unfoldable pub solicit_votes_as_candidate : Action Done
solicit_votes_as_candidate = do term ← gets (λ r. r.term); solicit_with become_leader msg_vote term

-- The call that solicitVotes makes of itself is for MsgVote, so the recursion is one deep.
unfoldable pub solicit_votes : MessageType → ℕ → Action Done
solicit_votes msg_pre_vote vote_term =
    solicit_with (become_candidate >> solicit_votes_as_candidate) msg_pre_vote vote_term
solicit_votes t vote_term = solicit_with become_leader t vote_term

unfoldable pub campaign : Action Done
campaign = do
  pre ← gets (λ r. r.cfg.pre_vote)
  term ← gets (λ r. r.term)
  if pre
      then become_pre_candidate >> solicit_votes msg_pre_vote (add64 term 1)
      else become_candidate >> solicit_votes_as_candidate

unfoldable pub tick_election : Action Done
tick_election = do
  modify (λ r. record r { election_elapsed = suc r.election_elapsed })
  due ← gets (λ r. promotable r && past_election_timeout r)
  when due (modify (λ r. record r { election_elapsed = 0 }) >> campaign)

unfoldable pub tick_heartbeat : Action Done
tick_heartbeat = do
  modify (λ r. record r { heartbeat_elapsed = suc r.heartbeat_elapsed })
  due ← gets (λ r. leb r.heartbeat_timeout r.heartbeat_elapsed)
  when due (modify (λ r. record r { heartbeat_elapsed = 0 }) >> bcast_heartbeat)

unfoldable pub tick : Action Done
tick = do leader ← gets (λ r. is_leader r.state); if leader then tick_heartbeat else tick_election
