-- ===== src/Raft/Handlers.antt =====
-- raft/handlers.go: what each role does with a peer's message.
pub mod Hints
use parallax_kv.Base.{
  ℕ, zero, suc, min, Bool, true, false, not, ◌&&◌, Option, none, some, List, [], ◌∷◌, ◌++◌, Outcome,
  ok, err, Bytes, length, ltb, leb, add64, ◌==◌, nat_eq, if◌then◌else◌,
}
use parallax_kv.Base.GoMap
use parallax_kv.Base.GoMap.{GoMap}
use parallax_kv.Raft.Types.{
  Message, blank, msg_append_resp, msg_heartbeat_resp, msg_install_snapshot_resp, Snapshot,
  ReadState,
}
use parallax_kv.Raft.LogStorage.{StorageError}
use parallax_kv.Raft.Progress.{Progress, maybe_decr_to}
use parallax_kv.Raft.ReadOnly
use parallax_kv.Raft.ReadOnly.{ReadIndexStatus}
use parallax_kv.Raft.Log
use parallax_kv.Raft.Log.{RaftLog}
use parallax_kv.Raft.Core.{
  Raft, Action, Done, ◌>>=◌, ◌>>◌, pure, gets, modify, reads, on_log, when, quorum, send,
}
use parallax_kv.Raft.Replication.{send_append, bcast_append, maybe_commit, update_progress}

-- The two loops that walk an index down the log: at an error or a term that is small enough they
-- stop, with what the stop gives.
walk_down : RaftLog → ℕ → (ℕ → Outcome StorageError ℕ → ℕ × ℕ) → ℕ → Option (ℕ × ℕ)
walk_down l t stop zero = some (0, 0)
walk_down l t stop (suc i) = elim (Log.term l (suc i)) [
  | none ↦ none
  | some (err e) ↦ some (stop (suc i) (err e))
  | some (ok gt) ↦ elim (leb gt t) [
    | true ↦ some (stop (suc i) (ok gt))
    | false ↦ walk_down l t stop i
  ]
]

-- the results of findConflictByTerm: at an error it breaks out and returns term 0
stop_with_term : ℕ → Outcome StorageError ℕ → ℕ × ℕ
stop_with_term i (err e) = (i, 0)
stop_with_term i (ok t) = (i, t)

unfoldable pub find_conflict_by_term : RaftLog → ℕ → ℕ → Option (ℕ × ℕ)
unfolding walk_down stop_with_term
find_conflict_by_term l index term = walk_down l term stop_with_term index

unfoldable pub send_append_resp : Message → ℕ → Action Done
send_append_resp m index = send (record (blank msg_append_resp) { to = m.from; log_index = index })

-- the reply to an append that does not match
unfoldable pub reject_append : Message → Action Done
reject_append m = do
  hint ← reads (λ r. elim (Log.last_index r.raft_log) [
    | none ↦ none
    | some last ↦ find_conflict_by_term r.raft_log (min m.log_index last) m.log_term
  ])
  send (record (blank msg_append_resp) {
    to = m.from;
    log_index = m.log_index;
    reject = true;
    reject_hint = hint.0;
    hint_term = hint.1;
  })

unfoldable pub reply_append : Message → Option ℕ → Action Done
unfolding send_append_resp reject_append
reply_append m (some last) = send_append_resp m last
reply_append m none = reject_append m

unfoldable pub handle_append : Message → Action Done
unfolding reply_append
handle_append m = do
  committed ← gets (λ r. r.raft_log.committed)
  let splice = (do
    last ← on_log (λ l. Log.maybe_append l m.log_index m.log_term m.commit m.entries)
    reply_append m last)
  if ltb m.log_index committed then send_append_resp m committed else splice

-- r.raftLog.commitTo(n)
abbrev pub commit_to : ℕ → Action Done
commit_to n = on_log (λ l. elim (Log.commit_to l n) [ none ↦ none | some l' ↦ some (tt, l') ])

unfoldable pub handle_heartbeat : Message → Action Done
handle_heartbeat m = do
  last ← reads (λ r. Log.last_index r.raft_log)
  commit_to (min m.commit last)
  send (record (blank msg_heartbeat_resp) { to = m.from; context = m.context })

-- restore: whether the snapshot was installed
unfoldable pub restore : Snapshot → Action Bool
restore snap = do
  committed ← gets (λ r. r.raft_log.committed)
  let newer = (do
    same ← reads (λ r. Log.match_term r.raft_log snap.metadata.index snap.metadata.term)
    if same
        then commit_to snap.metadata.index >> pure false
        else modify (λ r. record r { raft_log = Log.restore r.raft_log snap }) >> pure true)
  if leb snap.metadata.index committed then pure false else newer

unfoldable pub reply_snapshot : Message → Bool → Action Done
reply_snapshot m installed = do
  index ← reads (λ r. if installed then Log.last_index r.raft_log else some r.raft_log.committed)
  send (record (blank msg_install_snapshot_resp) { to = m.from; log_index = index })

unfoldable pub install : Message → Option Snapshot → Action Done
unfolding reply_snapshot
install m none = pure tt
install m (some snap) = do installed ← restore snap; reply_snapshot m installed

unfoldable pub handle_snapshot : Message → Action Done
unfolding install
handle_snapshot m = install m m.snapshot

-- the loop of decrHint keeps the index at which it stops
abbrev stop_at : ℕ → Outcome StorageError ℕ → ℕ × ℕ
stop_at i r = (i, 0)

index_of : Option (ℕ × ℕ) → Option ℕ
index_of none = none
index_of (some (i, t)) = some i

hint_below : RaftLog → Message → Option ℕ → Option ℕ
hint_below l m none = none
hint_below l m (some li) = index_of (walk_down l m.hint_term stop_at (min m.reject_hint li))

unfoldable pub decr_hint : RaftLog → Message → Option ℕ
unfolding walk_down index_of hint_below
decr_hint l m = if ltb 0 m.hint_term then hint_below l m (Log.last_index l) else some m.reject_hint

-- the branch of a rejection
unfoldable pub append_rejected : Message → Progress → Action Done
append_rejected m pr = do
  hint ← reads (λ r. decr_hint r.raft_log m)
  modify (λ r. record r { prs = GoMap.put r.prs m.from (maybe_decr_to pr m.log_index hint).0 })
  when (maybe_decr_to pr m.log_index hint).1 (send_append m.from)

unfoldable pub append_accepted : Message → Action Done
append_accepted m = do
  updated ← update_progress m.from m.log_index
  when updated (do advanced ← maybe_commit; when advanced bcast_append)

unfoldable pub handle_append_resp : Message → Action Done
unfolding append_rejected append_accepted
handle_append_resp m r = elim (GoMap.get r.prs m.from) [
  | none ↦ some (tt, r)
  | some pr ↦ if m.reject then append_rejected m pr r else append_accepted m r
]

-- a follower whose Match is behind is sent entries
unfoldable pub nudge : ℕ → Action Done
nudge from r = elim (GoMap.get r.prs from) [
  | none ↦ some (tt, r)
  | some pr ↦ elim (Log.last_index r.raft_log) [
    | none ↦ none
    | some last ↦ if ltb pr.matched last then send_append from r else some (tt, r)
  ]
]

abbrev pub read_states_of : List ReadIndexStatus → List ReadState
read_states_of [] = []
read_states_of (rs ∷ rss) =
    record { index = rs.index; request_ctx = rs.req.context } ∷ read_states_of rss

-- readStates grows by what advance releases
unfoldable pub release : Bytes → Action Done
release context = modify (λ r.
    let (ro, rss) = ReadOnly.advance r.read_only context in
    record r { read_only = ro; read_states = r.read_states ++ read_states_of rss })

-- The acknowledgement of a context, counted; the requests are released at a quorum.
unfoldable pub ack : Message → Action Done
unfolding release
ack m = do
  count ← gets (λ r. (ReadOnly.recv_ack r.read_only m.from m.context).1)
  modify (λ r. record r { read_only = (ReadOnly.recv_ack r.read_only m.from m.context).0 })
  short ← gets (λ r. ltb count (quorum r))
  if short then pure tt else release m.context

unfoldable pub handle_heartbeat_resp : Message → Action Done
unfolding nudge ack
handle_heartbeat_resp m = do nudge m.from; if length m.context == 0 then pure tt else ack m
