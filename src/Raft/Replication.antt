-- ===== src/Raft/Replication.antt =====
-- raft/replication.go, and the commit rule and appendEntry of raft/raft.go.
pub mod Quorum
use parallax_kv.Base.{
  ℕ, suc, ◌+◌, ◌-◌, Bool, true, false, Option, none, some, List, [], ◌∷◌, ◌++◌, Outcome, ok, err,
  length, get_elem?, ltb, leb, add64, sub64, sort_by, ◌==◌, ◌&&◌, nat_eq, if◌then◌else◌,
}
use parallax_kv.Base.GoMap
use parallax_kv.Base.GoMap.{GoMap}
use parallax_kv.Base.Panics
use parallax_kv.Raft.Types.{
  EntryType, entry_noop, Entry, Message, blank, msg_append, msg_install_snapshot,
}
use parallax_kv.Raft.LogStorage.{StorageError}
use parallax_kv.Raft.Progress.{Progress, maybe_update}
use parallax_kv.Raft.Log
use parallax_kv.Raft.Log.{RaftLog}
use parallax_kv.Raft.Core.{
  Raft, Action, Done, ◌>>=◌, ◌>>◌, pure, gets, modify, reads, on_log, when, for_each, quorum, send,
}
use parallax_kv.Raft.Reads.{matched_at, release_pending_read_index_messages}

-- sendSnapshot: nothing is sent if the storage has no snapshot.
unfoldable pub send_snapshot : ℕ → Action Done
send_snapshot id r = elim r.raft_log.storage.snapshot [
  | err e ↦ some (tt, r)
  | ok snap ↦
      if snap.metadata.index == 0
      then some (tt, r)
      else send (record (blank msg_install_snapshot) { to = id; snapshot = some snap }) r
]

-- entriesToSend
unfoldable pub entries_to_send : Raft → ℕ → Option (Outcome StorageError (List Entry))
entries_to_send r lo = elim (Log.last_index r.raft_log) [
  | none ↦ none
  | some last ↦
      let hi = add64 last 1 in
      let limit = r.cfg.max_entries_per_append in
      if ltb last lo
      then some (ok [])
      else Log.slice r.raft_log lo
          (if ltb 0 limit && ltb limit (sub64 hi lo) then add64 lo limit else hi)
]

-- the MsgAppend, or a snapshot if the entries are compacted
unfoldable pub with_entries : ℕ → ℕ → ℕ → Outcome StorageError (List Entry) → Action Done
with_entries id prev_index prev_term (err e) = send_snapshot id
with_entries id prev_index prev_term (ok ents) = do
  committed ← gets (λ r. r.raft_log.committed)
  send (record (blank msg_append) {
    to = id;
    log_index = prev_index;
    log_term = prev_term;
    entries = ents;
    commit = committed;
  })

-- a snapshot if the preceding entry is compacted
unfoldable pub with_prev_term : ℕ → ℕ → Outcome StorageError ℕ → Action Done
unfolding with_entries
with_prev_term id next (err e) = send_snapshot id
with_prev_term id next (ok prev_term) = do
  ents ← reads (λ r. entries_to_send r next)
  with_entries id (sub64 next 1) prev_term ents

unfoldable pub send_from : ℕ → ℕ → Action Done
unfolding with_prev_term
send_from id next = do
  prev_term ← reads (λ r. Log.term r.raft_log (sub64 next 1))
  with_prev_term id next prev_term

unfoldable pub send_append : ℕ → Action Done
unfolding send_from
send_append id r = elim (GoMap.get r.prs id) [
  | none ↦ some (tt, r)
  | some pr ↦ send_from id pr.next r
]

-- the body of the loop over the peers
unfoldable pub append_to : ℕ → Action Done
append_to id = do self ← gets (λ r. id == r.id); if self then pure tt else send_append id

unfoldable pub bcast_append : Action Done
unfolding append_to
bcast_append = do peers ← gets (λ r. r.peers); for_each peers append_to

-- the Match of every peer
unfoldable pub matches : Raft → List ℕ → Option (List ℕ)
matches r [] = some []
matches r (id ∷ ids) =
    let rest = matches r ids in
    elim (matched_at r id) [
      | none ↦ none
      | some m ↦ elim rest [ none ↦ none | some ms ↦ some (m ∷ ms) ]
    ]

-- The element at len - quorum of the sorted list; out of range panics.
unfoldable pub quorum_match : List ℕ → ℕ → Option ℕ
quorum_match ms q = if ltb (length ms) q then none else get_elem? (sort_by leb ms) (length ms - q)

-- The highest index that a majority has: mci.
unfoldable pub majority_index : Raft → Option ℕ
majority_index r = elim (matches r r.peers) [ none ↦ none | some ms ↦ quorum_match ms (quorum r) ]

unfoldable pub maybe_commit : Action Bool
maybe_commit = do
  mci ← reads majority_index
  term ← gets (λ r. r.term)
  advanced ← on_log (λ l. Log.maybe_commit l mci term)
  if advanced then release_pending_read_index_messages >>= (λ _. pure true) else pure false

-- es[i].Term and es[i].Index, from the index after the last
unfoldable pub stamp_entries : ℕ → ℕ → List Entry → List Entry
stamp_entries term index [] = []
stamp_entries term index (e ∷ es) =
    record e { term = term; index = index } ∷ stamp_entries term (add64 index 1) es

-- r.prs[id].maybeUpdate(n); a nil dereference panics
unfoldable pub update_progress : ℕ → ℕ → Action Bool
update_progress id n r = elim (GoMap.get r.prs id) [
  | none ↦ none
  | some pr ↦
      some ((maybe_update pr n).1, record r { prs = GoMap.put r.prs id (maybe_update pr n).0 })
]

unfoldable pub append_entry : List Entry → Action Done
append_entry es = do
  li ← reads (λ r. Log.last_index r.raft_log)
  term ← gets (λ r. r.term)
  last ← on_log (λ l. Log.append l (stamp_entries term (add64 li 1) es))
  id ← gets (λ r. r.id)
  updated ← update_progress id last
  committed ← maybe_commit
  pure tt
