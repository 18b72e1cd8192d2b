-- ===== src/Raft/Node.antt =====
-- raft/node.go, and newRaft of raft/raft.go: the facade that a driver calls.
pub mod Restart
pub mod Batch
mod Tests
use parallax_kv.Base.{
  ℕ, Bool, true, false, not, ◌&&◌, ◌||◌, Option, none, some, List, [], ◌∷◌, Outcome, ok, err,
  length, get_last?, ltb, leb, sort_by, ◌==◌, nat_eq, if◌then◌else◌,
}
use parallax_kv.Base.Panics.{◌>>=◌}
use parallax_kv.Base.GoMap
use parallax_kv.Raft.Types.{Entry, HardState, Snapshot, Message, Ready, StateType, state_follower}
use parallax_kv.Raft.LogStorage.{StorageError, LogStorage}
use parallax_kv.Raft.Config.{Config, ConfigError, validate}
use parallax_kv.Raft.ReadOnly.{new_read_only}
use parallax_kv.Raft.Log
use parallax_kv.Raft.Log.{RaftLog}
use parallax_kv.Raft.Core.{Raft, Done, no_node, hard_state}
use parallax_kv.Raft.Election
use parallax_kv.Raft.Step

pub record Node : Type 0 where
  pub raft : Raft
  pub pending_ready : Option Ready

-- an invalid Config, or a storage read that failed
pub data NodeError : Type 0 where
  bad_config : ConfigError → NodeError
  bad_storage : StorageError → NodeError

-- the node before becomeFollower, with the recovered term, vote and commit
recovered : Config → RaftLog → HardState → Raft
recovered cfg l hs = record {
  cfg = cfg;
  id = cfg.id;
  term = hs.term;
  vote = hs.vote;
  raft_log = l;
  state = state_follower;
  lead = no_node;
  peers = sort_by leb cfg.peers;
  prs = GoMap.empty;
  votes = GoMap.empty;
  msgs = [];
  read_states = [];
  read_only = new_read_only;
  pending_read_index_messages = [];
  election_elapsed = 0;
  heartbeat_elapsed = 0;
  heartbeat_timeout = cfg.heartbeat_ticks;
  randomized_election_timeout = 0;
  prev_hard_st = record { term = hs.term; vote = hs.vote; commit = l.committed };
  draws = 0;
}

start : Config → RaftLog → HardState → Option Raft
unfolding recovered
start cfg l hs = do
  l' ← if ltb l.committed hs.commit then Log.commit_to l hs.commit else some l
  (u, r) ← Election.become_follower hs.term no_node (recovered cfg l' hs)
  some r

abbrev or_panic : Option Raft → Option (Outcome StorageError Raft)
or_panic none = none
or_panic (some r) = some (ok r)

from_log : Config → LogStorage → Outcome StorageError RaftLog → Option (Outcome StorageError Raft)
unfolding start
from_log cfg storage (err e) = some (err e)
from_log cfg storage (ok l) = elim storage.hard_state [
  | err e ↦ some (err e)
  | ok hs ↦ or_panic (start cfg l hs)
]

unfoldable pub new_raft : Config → LogStorage → Option (Outcome StorageError Raft)
unfolding from_log
new_raft cfg storage = from_log cfg storage (Log.new_log storage)

made : Outcome StorageError Raft → Outcome NodeError Node
made (err e) = err (bad_storage e)
made (ok r) = ok (record { raft = r; pending_ready = none })

unfoldable pub new_node : Config → LogStorage → Option (Outcome NodeError Node)
unfolding made
new_node cfg storage = elim (validate cfg) [
  | some e ↦ some (err (bad_config e))
  | none ↦ do r ← new_raft cfg storage; some (made r)
]

-- a == b on HardState
abbrev pub same_hard_state : HardState → HardState → Bool
same_hard_state a b = a.term == b.term && (a.vote == b.vote && a.commit == b.commit)

abbrev pub is_some {ℓ} : {A : Type ℓ} → Option A → Bool
is_some none = false
is_some (some a) = true

abbrev pub is_empty {ℓ} : {A : Type ℓ} → List A → Bool
is_empty [] = true
is_empty (x ∷ xs) = false

-- The poll of an idle node, in the order of its tests.
unfoldable pub raft_has_ready : Raft → Option Bool
raft_has_ready r =
    if not (is_empty r.msgs) || not (is_empty r.read_states)
    then some true
    else if not (is_empty r.raft_log.unstable.entries) || is_some r.raft_log.unstable.snapshot
    then some true
    else (do
      committed ← Log.has_next_committed_ents r.raft_log
      some (committed || not (same_hard_state (hard_state r) r.prev_hard_st)))

unfoldable pub has_ready : Node → Option Bool
unfolding raft_has_ready
has_ready n = if is_some n.pending_ready then some false else raft_has_ready n.raft

-- Whether the term or the vote changed: a commit alone needs no fsync.
abbrev pub promises : HardState → HardState → Bool
promises old hs = not (hs.term == old.term) || not (hs.vote == old.vote)

-- The batch of a node; its log may panic.
unfoldable pub ready_of : Raft → Option Ready
ready_of r = do
  committed ← Log.next_committed_ents r.raft_log
  let changed = not (same_hard_state (hard_state r) r.prev_hard_st)
  some (record {
    hard_state = if changed then some (hard_state r) else none;
    entries = r.raft_log.unstable.entries;
    snapshot = r.raft_log.unstable.snapshot;
    committed_entries = committed;
    messages = r.msgs;
    read_states = r.read_states;
    must_sync =
        not (is_empty r.raft_log.unstable.entries)
        || (is_some r.raft_log.unstable.snapshot
            || changed && promises r.prev_hard_st (hard_state r));
  })

unfoldable pub ready : Node → Option (Ready × Node)
unfolding ready_of
ready n = do rd ← ready_of n.raft; some (rd, record n { pending_ready = some rd })

-- The steps of Advance over the log, each skipped where the batch had nothing of its kind.
unfoldable pub stabilise : RaftLog → List Entry → Option RaftLog
stabilise l ents = elim (get_last? ents) [ none ↦ some l | some e ↦ Log.stable_to l e.index e.term ]

unfoldable pub stabilise_snapshot : RaftLog → Option Snapshot → RaftLog
stabilise_snapshot l none = l
stabilise_snapshot l (some s) = Log.stable_snap_to l s.metadata.index

unfoldable pub mark_applied : RaftLog → List Entry → Option RaftLog
mark_applied l ents = elim (get_last? ents) [ none ↦ some l | some e ↦ Log.applied_to l e.index ]

abbrev pub or_else {ℓ} : {A : Type ℓ} → Option A → A → A
or_else none d = d
or_else (some a) d = a

unfoldable pub acknowledge : Raft → Ready → Option Raft
unfolding stabilise stabilise_snapshot mark_applied
acknowledge r rd = do
  l ← stabilise r.raft_log rd.entries
  l' ← mark_applied (stabilise_snapshot l rd.snapshot) rd.committed_entries
  some (record r {
    prev_hard_st = or_else rd.hard_state r.prev_hard_st;
    raft_log = l';
    msgs = [];
    read_states = [];
  })

unfoldable pub advance : Node → Option Node
unfolding acknowledge
advance n = elim n.pending_ready [
  | none ↦ some n
  | some rd ↦ do r ← acknowledge n.raft rd; some (record { raft = r; pending_ready = none })
]

-- Node.Tick and Node.Step
unfoldable pub tick : Node → Option Node
tick n = do (u, r) ← Election.tick n.raft; some (record n { raft = r })

unfoldable pub step : Node → Message → Option (Step.Returned × Node)
step n m = do (e, r) ← Step.step m n.raft; some (e, record n { raft = r })
