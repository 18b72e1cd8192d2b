-- ===== src/Raft/Reads.antt =====
-- raft/step.go and raft/replication.go: ReadIndex requests and the heartbeats that confirm them.
use parallax_kv.Base.{
  ℕ, min, Bool, true, false, Option, none, some, [], ◌∷◌, ◌++◌, Bytes, length, ◌==◌, nat_eq,
  if◌then◌else◌,
}
use parallax_kv.Base.GoMap
use parallax_kv.Raft.Types.{Message, blank, msg_heartbeat, StateType, state_leader}
use parallax_kv.Raft.ReadOnly
use parallax_kv.Raft.Log
use parallax_kv.Raft.Log.{term_is}
use parallax_kv.Raft.Core.{
  Raft, Action, Done, ◌>>=◌, ◌>>◌, pure, gets, modify, reads, when, for_each, send,
}

abbrev pub is_leader : StateType → Bool
is_leader state_leader = true
is_leader _ = false

-- r.prs[id].Match; a nil dereference panics
abbrev pub matched_at : Raft → ℕ → Option ℕ
matched_at r id = elim (GoMap.get r.prs id) [ none ↦ none | some pr ↦ some pr.matched ]

-- the body of the loop over the peers
unfoldable pub heartbeat_to : Bytes → ℕ → Action Done
heartbeat_to ctx id = do
  self ← gets (λ r. id == r.id)
  let beat = (do
    matched ← reads (λ r. matched_at r id)
    committed ← gets (λ r. r.raft_log.committed)
    send (record (blank msg_heartbeat) { to = id; commit = min matched committed; context = ctx }))
  if self then pure tt else beat

unfoldable pub bcast_heartbeat_with_ctx : Bytes → Action Done
unfolding heartbeat_to
bcast_heartbeat_with_ctx ctx = do peers ← gets (λ r. r.peers); for_each peers (heartbeat_to ctx)

unfoldable pub bcast_heartbeat : Action Done
bcast_heartbeat = do
  ctx ← reads (λ r. ReadOnly.last_pending_request_ctx r.read_only)
  bcast_heartbeat_with_ctx ctx

unfoldable pub committed_entry_in_current_term : Raft → Option Bool
committed_entry_in_current_term r = elim (Log.term r.raft_log r.raft_log.committed) [
  | none ↦ none
  | some t ↦ some (term_is r.term t)
]

-- what sendReadIndex does in a cluster of several nodes
unfoldable pub confirm_read_index : Message → Action Done
confirm_read_index m = do
  modify (λ r. record r {
    read_only =
        (ReadOnly.recv_ack (ReadOnly.add_request r.read_only r.raft_log.committed m) r.id
          m.context).0;
  })
  bcast_heartbeat_with_ctx m.context

unfoldable pub send_read_index : Message → Action Done
unfolding confirm_read_index
send_read_index m = do
  alone ← gets (λ r. length r.peers == 1)
  if alone
      then modify (λ r. record r {
        read_states =
            r.read_states ++ record { index = r.raft_log.committed; request_ctx = m.context } ∷ [];
      })
      else confirm_read_index m

unfoldable pub release_pending_read_index_messages : Action Done
release_pending_read_index_messages = do
  leader ← gets (λ r. is_leader r.state)
  let release = (do
    pending ← gets (λ r. r.pending_read_index_messages)
    modify (λ r. record r { pending_read_index_messages = [] })
    for_each pending send_read_index)
  let if_committed = (do committed ← reads committed_entry_in_current_term; when committed release)
  when leader if_committed
