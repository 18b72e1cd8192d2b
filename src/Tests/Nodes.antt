-- ===== src/Tests/Nodes.antt =====
-- A leader that commits, a follower under a lease, a batch, a restart and a read.
use parallax_kv.Base.{
  ℕ, ◌≡◌, ◌≤◌, ◌<◌, ◌⊎◌, inl, ◌↔◌, refl, true, false, Option, none, some, List, [], ◌∷◌, ◌++◌,
  Bytes, arith, Outcome, ok, err, get_last?,
}
use parallax_kv.Base.GoMap
use parallax_kv.Raft.Types.{
  Message, blank, msg_read_index, Entry, entry_normal, Ready, state_leader,
}
use parallax_kv.Raft.Config.{validate}
use parallax_kv.Raft.Config.Sound.{IsUsable, validate_lem}
use parallax_kv.Raft.Log
use parallax_kv.Raft.Log.{RaftLog}
use parallax_kv.Raft.Core.{Raft, hard_state}
use parallax_kv.Raft.ReadOnly
use parallax_kv.Raft.ReadOnly.{ReadOnly, ReadIndexStatus, new_read_only, add_request, recv_ack}
use parallax_kv.Raft.ReadOnly.Order.{
  IsConsistent, idle, alone, waiting, once, unseen, contexts, advance_lem,
}
use parallax_kv.Raft.ReadOnly.Requests.{add_request-IsConsistent, recv_ack-IsConsistent}
use parallax_kv.Raft.Replication
use parallax_kv.Raft.Replication.{quorum_match}
use parallax_kv.Raft.Handlers.{find_conflict_by_term}
use parallax_kv.Raft.Handlers.Hints.{StopsAt, find_conflict_by_term-StopsAt}
use parallax_kv.Raft.Step
use parallax_kv.Raft.Step.{has_lease}
use parallax_kv.Raft.Node
use parallax_kv.Raft.Node.{Node, new_raft, ready_of}
use parallax_kv.Raft.Node.Batch.{NeedsNoSync, ready_of-NeedsNoSync, ready-advance}
use parallax_kv.Raft.Safety.Lease.{IsRefusal, lease-IsRefusal}
use parallax_kv.Raft.Safety.Commit.{Agreed, maybe_commit-Agreed}
use parallax_kv.Tests.Data.{three_nodes, empty_log, follower, of_raft, vote_request}

validate_lem_example : (validate three_nodes ≡ none) ↔ IsUsable three_nodes
validate_lem_example = validate_lem three_nodes

-- node 3 leads
abbrev led : Raft
led = record follower { lead = 3 }

lease-IsRefusal_example :
    (s : Raft) × (Step.step vote_request led ≡ some (none, s)) × IsRefusal vote_request led s
lease-IsRefusal_example =
    lease-IsRefusal vote_request led (inl refl) (omega arith) (omega arith) (omega arith)

-- two entries of term 4, not stored yet
abbrev entry : ℕ → Entry
entry i = record { term = 4; index = i; type = entry_normal; payload = [] }

abbrev two_entries : ℕ → RaftLog
two_entries c = record empty_log {
  unstable = record { snapshot = none; entries = entry 1 ∷ entry 2 ∷ []; offset = 1 };
  committed = c;
}

abbrev leader : ℕ → Raft
leader c = record follower {
  state = state_leader;
  lead = 1;
  vote = 1;
  raft_log = two_entries c;
  prs =
      (1, record { matched = 2; next = 3 })
      ∷ (2, record { matched = 1; next = 2 })
      ∷ (3, record { matched = 0; next = 1 })
      ∷ [];
}

commits : Replication.maybe_commit (leader 0) ≡ some (true, leader 1)
unfolding Replication.maybe_commit Replication.majority_index Replication.matches GoMap.get
    quorum_match parallax_kv.Raft.Core.quorum parallax_kv.Base.sort_by parallax_kv.Base.insert_by
    Log.maybe_commit Log.term Log.first_index parallax_kv.Raft.Unstable.maybe_first_index
    Log.last_index parallax_kv.Raft.Unstable.maybe_last_index parallax_kv.Raft.Unstable.maybe_term
    Log.commit_to parallax_kv.Raft.Reads.release_pending_read_index_messages
    parallax_kv.Raft.Reads.committed_entry_in_current_term parallax_kv.Raft.Core.for_each
commits = refl

maybe_commit-Agreed_example : Agreed (leader 0) (two_entries 1)
maybe_commit-Agreed_example = maybe_commit-Agreed (leader 0) (leader 1) commits

conflict : find_conflict_by_term (two_entries 0) 2 3 ≡ some (0, 0)
unfolding find_conflict_by_term Log.term Log.first_index parallax_kv.Raft.Unstable.maybe_first_index
    Log.last_index parallax_kv.Raft.Unstable.maybe_last_index parallax_kv.Raft.Unstable.maybe_term
conflict = refl

find_conflict_by_term-StopsAt_example : StopsAt (two_entries 0) 3 2 (0, 0)
find_conflict_by_term-StopsAt_example =
    find_conflict_by_term-StopsAt (two_entries 0) 2 3 (0, 0) conflict

-- a follower that learned of a commit, with a reply in its outbox
abbrev idle_follower : Raft
idle_follower = record follower {
  raft_log = record empty_log { unstable = record { snapshot = none; entries = []; offset = 1 } };
  msgs = vote_request ∷ [];
}

abbrev batch : Ready
batch = record {
  hard_state = none;
  entries = [];
  snapshot = none;
  committed_entries = [];
  messages = vote_request ∷ [];
  read_states = [];
  must_sync = false;
}

polled : ready_of idle_follower ≡ some batch
unfolding ready_of Log.next_committed_ents hard_state
polled = refl

ready_of-NeedsNoSync_example : NeedsNoSync idle_follower.prev_hard_st idle_follower batch
ready_of-NeedsNoSync_example = ready_of-NeedsNoSync idle_follower batch polled refl

abbrev pending : Node
pending = record { raft = idle_follower; pending_ready = some batch }

abbrev emptied : Node
emptied = of_raft (record idle_follower { msgs = [] })

readied : Node.ready (of_raft idle_follower) ≡ some (batch, pending)
unfolding Node.ready Log.next_committed_ents hard_state
readied = refl

acknowledged : Node.advance pending ≡ some emptied
unfolding Node.advance
acknowledged = refl

ready-advance_example :
    (batch.messages ≡ idle_follower.msgs)
    × (batch.read_states ≡ idle_follower.read_states)
    × (emptied.raft.msgs ≡ [])
    × (emptied.raft.read_states ≡ [])
    × (emptied.raft.prev_hard_st ≡ hard_state idle_follower)
    × (emptied.pending_ready ≡ none)
ready-advance_example =
    ready-advance (of_raft idle_follower) pending emptied batch readied acknowledged

-- a read that waits under the context "r"
abbrev read : Message
read = record (blank msg_read_index) { context = 114 ∷ [] }

abbrev one_read : ReadOnly
one_read = record {
  pending_read_index = (114 ∷ [], record { index = 4; req = read; acks = GoMap.empty }) ∷ [];
  read_index_queue = (114 ∷ []) ∷ [];
}

none-IsConsistent : IsConsistent new_read_only
none-IsConsistent = record { pending = idle; distinct = alone }

one-IsConsistent : IsConsistent one_read
unfolding GoMap.get
one-IsConsistent = record {
  pending = waiting (record { index = 4; req = read; acks = GoMap.empty }) refl refl idle;
  distinct = once unseen alone;
}

add_request-IsConsistent_example : IsConsistent (add_request new_read_only 4 read)
add_request-IsConsistent_example = add_request-IsConsistent new_read_only 4 read none-IsConsistent

recv_ack-IsConsistent_example :
    IsConsistent (recv_ack one_read 2 (114 ∷ [])).0
    × ((recv_ack one_read 2 (114 ∷ [])).0.read_index_queue ≡ one_read.read_index_queue)
recv_ack-IsConsistent_example = recv_ack-IsConsistent one_read 2 (114 ∷ []) one-IsConsistent

abbrev released : List ReadIndexStatus
released = record { index = 4; req = read; acks = GoMap.empty } ∷ []

releases : ReadOnly.advance one_read (114 ∷ []) ≡ (new_read_only, released)
unfolding ReadOnly.advance ReadOnly.walk GoMap.get ReadOnly.delete_all GoMap.delete
releases = refl

advance_lem_example :
    IsConsistent new_read_only
    × (one_read.read_index_queue ≡ contexts released ++ new_read_only.read_index_queue)
    × (((released ≡ []) × (new_read_only ≡ one_read))
        ⊎ (get_last? (contexts released) ≡ some (114 ∷ [])))
advance_lem_example =
    advance_lem one_read new_read_only (114 ∷ []) released one-IsConsistent releases
