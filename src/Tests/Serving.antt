-- ===== src/Tests/Serving.antt =====
-- A server alone in its cluster that answers a write and a read, and its batches.
use parallax_kv.Base.{
  ℕ, ◌+◌, ◌≤◌, ◌≡◌, ◌⊎◌, refl, true, false, Option, none, some, List, [], ◌∷◌, Bytes, Outcome, ok,
  err, arith, max, drop, length,
}
use parallax_kv.Raft.Types.{Entry, HardState, entry_normal, Ready, state_leader}
use parallax_kv.Raft.Core.{Raft}
use parallax_kv.Raft.Node
use parallax_kv.Raft.Node.{Node}
use parallax_kv.Kv.Command.{Command, op_put, encode_command}
use parallax_kv.Kv.StateMachine.{StateMachine, new_state_machine}
use parallax_kv.Storage.Disk.{Storage}
use parallax_kv.Storage.Disk.Os.Calm.{calm}
use parallax_kv.Storage.Disk.Recovery.Written.{with_segment}
use parallax_kv.Storage.Disk.Recovery.Runs.{first_store}
use parallax_kv.Server.{Server, propose, read_key}
use parallax_kv.Server.Persist.{as_log_storage}
use parallax_kv.Server.Drive.{
  Loop, Event, requested, LoopError, handle, start_drain, process, Drains, drained, batch, Serves,
  idle, handled,
}
use parallax_kv.Server.Answers.{times, load}
use parallax_kv.Server.AnsweredOnce.{asks, answered_once}
use parallax_kv.Server.Persist.{persist}
use parallax_kv.Server.Start.{Config, new_server}
use parallax_kv.Server.Restart.{restarted-Remembers}
use parallax_kv.Raft.Node.Restart.{Remembers}
use parallax_kv.Storage.Disk.Recovery.Crash.{crash_image}
use parallax_kv.Server.Sent.{IsSent, process-IsSent}
use parallax_kv.Server.Durable.{EntriesFit, Survives, with_state, persist-Survives}
use parallax_kv.Server.Replica.{commands, execute_all, apply_entries-execute_all}
use parallax_kv.Server.Waiting.{AllWait, batch-AllWait}
use parallax_kv.Server.Drive.{apply_entries, release_reads}
use parallax_kv.Storage.Mem
use parallax_kv.Storage.Mem.Append.{contiguous}
use parallax_kv.Storage.Disk.{new}
use parallax_kv.Storage.Disk.Os.Calm.{Directory}
use parallax_kv.Storage.Disk.Framing.{type_byte, type_of_byte}
use parallax_kv.Storage.Disk.Framing.RoundTrip.{IsEncodable}
use parallax_kv.Storage.Disk.Log.Mirror.{mem_of}
use parallax_kv.Storage.Disk.Recovery.Runs.{first, open_storage_first}
use parallax_kv.Server.Total.{apply_entries_total}
use parallax_kv.Tests.Data.{follower, empty_log}

abbrev lone : Raft
lone = record follower {
  state = state_leader;
  lead = 1;
  vote = 1;
  peers = 1 ∷ [];
  prs = (1, record { matched = 0; next = 1 }) ∷ [];
  raft_log = record empty_log {
    storage = as_log_storage first_store;
    unstable = record { snapshot = none; entries = []; offset = 1 };
  };
}

abbrev fresh : Server
fresh = record {
  sm = new_state_machine;
  applied = 0;
  prev_leader = true;
  read_token = 0;
  pending_reads = [];
  write_waiters = [];
  read_waiters = [];
  answers = [];
}

abbrev first_put : Command
first_put = record {
  client_id = 7;
  seq = 1;
  op = op_put;
  key = 97 ∷ [];
  value = some (1 ∷ []);
  expect = none;
}

abbrev start : Loop
start = record {
  server = fresh;
  node = record { raft = lone; pending_ready = none };
  world = calm first_store (with_segment [] 1);
  sent = [];
}

abbrev or_start : Option Loop → Loop
or_start none = start
or_start (some l) = l

abbrev left_by : Option (Option LoopError × Loop) → Loop
left_by none = start
left_by (some (e, l)) = l

-- a write, which comes with channel 5
abbrev write : Event
write = requested (propose first_put 5)

abbrev proposed : Loop
proposed = or_start (handle write start)

abbrev applied : Loop
applied = left_by (process (start_drain proposed))

handles : handle write start ≡ some proposed
unfolding handle parallax_kv.Server.Drive.handle_request Node.step parallax_kv.Raft.Step.step
    parallax_kv.Raft.Step.step_propose parallax_kv.Raft.Replication.append_entry
    parallax_kv.Raft.Log.last_index parallax_kv.Raft.Unstable.maybe_last_index
    parallax_kv.Raft.Log.append parallax_kv.Raft.Unstable.truncate_append
    parallax_kv.Raft.Replication.stamp_entries parallax_kv.Storage.Disk.Log.last_index
    parallax_kv.Storage.Disk.new parallax_kv.Raft.Replication.update_progress
    parallax_kv.Base.GoMap.get parallax_kv.Raft.Replication.maybe_commit
    parallax_kv.Raft.Replication.majority_index parallax_kv.Raft.Replication.matches
    parallax_kv.Base.GoMap.put parallax_kv.Raft.Replication.quorum_match
    parallax_kv.Raft.Core.quorum parallax_kv.Base.sort_by parallax_kv.Base.insert_by
    parallax_kv.Raft.Log.maybe_commit parallax_kv.Raft.Progress.maybe_update
    parallax_kv.Raft.Log.term parallax_kv.Raft.Log.first_index
    parallax_kv.Raft.Unstable.maybe_first_index parallax_kv.Storage.Disk.Log.first_index
    parallax_kv.Raft.Unstable.maybe_term parallax_kv.Raft.Log.commit_to
    parallax_kv.Raft.Reads.release_pending_read_index_messages
    parallax_kv.Raft.Reads.committed_entry_in_current_term parallax_kv.Raft.Core.for_each
    parallax_kv.Raft.Replication.bcast_append
handles = refl

has_work : Node.has_ready (start_drain proposed).node ≡ some true
unfolding Node.has_ready start_drain handle parallax_kv.Server.Drive.handle_request Node.step
    parallax_kv.Raft.Step.step parallax_kv.Raft.Step.step_propose
    parallax_kv.Raft.Replication.append_entry parallax_kv.Raft.Log.last_index
    parallax_kv.Raft.Unstable.maybe_last_index parallax_kv.Raft.Log.append
    parallax_kv.Raft.Unstable.truncate_append parallax_kv.Raft.Replication.stamp_entries
    parallax_kv.Storage.Disk.Log.last_index parallax_kv.Storage.Disk.new
    parallax_kv.Raft.Replication.update_progress parallax_kv.Base.GoMap.get
    parallax_kv.Raft.Replication.maybe_commit parallax_kv.Raft.Replication.majority_index
    parallax_kv.Raft.Replication.matches parallax_kv.Base.GoMap.put
    parallax_kv.Raft.Replication.quorum_match parallax_kv.Raft.Core.quorum parallax_kv.Base.sort_by
    parallax_kv.Base.insert_by parallax_kv.Raft.Log.maybe_commit
    parallax_kv.Raft.Progress.maybe_update parallax_kv.Raft.Log.term
    parallax_kv.Raft.Log.first_index parallax_kv.Raft.Unstable.maybe_first_index
    parallax_kv.Storage.Disk.Log.first_index parallax_kv.Raft.Unstable.maybe_term
    parallax_kv.Raft.Log.commit_to parallax_kv.Raft.Reads.release_pending_read_index_messages
    parallax_kv.Raft.Reads.committed_entry_in_current_term parallax_kv.Raft.Core.for_each
    parallax_kv.Raft.Replication.bcast_append
has_work = refl

processes : process (start_drain proposed) ≡ some (none, applied)
unfolding process Node.ready parallax_kv.Raft.Log.next_committed_ents start_drain handle
    parallax_kv.Server.Drive.handle_request Node.step parallax_kv.Raft.Step.step
    parallax_kv.Raft.Step.step_propose parallax_kv.Raft.Replication.append_entry
    parallax_kv.Raft.Log.last_index parallax_kv.Raft.Unstable.maybe_last_index
    parallax_kv.Raft.Log.append parallax_kv.Raft.Unstable.truncate_append
    parallax_kv.Raft.Replication.stamp_entries parallax_kv.Storage.Disk.Log.last_index
    parallax_kv.Storage.Disk.new parallax_kv.Raft.Replication.update_progress
    parallax_kv.Base.GoMap.get parallax_kv.Raft.Replication.maybe_commit
    parallax_kv.Raft.Replication.majority_index parallax_kv.Raft.Replication.matches
    parallax_kv.Base.GoMap.put parallax_kv.Raft.Replication.quorum_match
    parallax_kv.Raft.Core.quorum parallax_kv.Base.sort_by parallax_kv.Base.insert_by
    parallax_kv.Raft.Log.maybe_commit parallax_kv.Raft.Progress.maybe_update
    parallax_kv.Raft.Log.term parallax_kv.Raft.Log.first_index
    parallax_kv.Raft.Unstable.maybe_first_index parallax_kv.Storage.Disk.Log.first_index
    parallax_kv.Raft.Unstable.maybe_term parallax_kv.Raft.Log.commit_to
    parallax_kv.Raft.Reads.release_pending_read_index_messages
    parallax_kv.Raft.Reads.committed_entry_in_current_term parallax_kv.Raft.Core.for_each
    parallax_kv.Raft.Replication.bcast_append parallax_kv.Raft.Log.slice
    parallax_kv.Server.Persist.persist parallax_kv.Storage.Disk.Log.append_entries
    parallax_kv.Raft.Core.hard_state parallax_kv.Storage.Disk.Segments.sync_batch
    parallax_kv.Storage.Disk.Segments.sync_buffered parallax_kv.Storage.Disk.Log.set_hard_state
    parallax_kv.Storage.Disk.Framing.append_frame parallax_kv.Storage.Disk.Log.buffer_entries
    parallax_kv.Storage.Disk.Framing.frame parallax_kv.Base.be_bytes
    parallax_kv.Storage.Disk.Framing.encode_entry encode_command
    parallax_kv.Kv.Codec.append_opt_bytes parallax_kv.Kv.Codec.append_uint32
    parallax_kv.Kv.Codec.append_string parallax_kv.Kv.Codec.append_uint64
    parallax_kv.Storage.Disk.Framing.encode_hard_state parallax_kv.Storage.Disk.Os.write
    parallax_kv.Storage.Disk.Segments.segment_name parallax_kv.Base.padded
    parallax_kv.Storage.Disk.Os.sync parallax_kv.Server.Drive.install_snapshot
    parallax_kv.Server.Waiters.apply_entry parallax_kv.Server.Waiters.check_leadership
    parallax_kv.Kv.Command.decode_command parallax_kv.Kv.Codec.byte parallax_kv.Kv.Codec.uint64
    parallax_kv.Kv.Codec.string parallax_kv.Kv.Codec.uint32 parallax_kv.Kv.Codec.bytes_n
    parallax_kv.Base.be_value parallax_kv.Kv.Codec.opt_bytes parallax_kv.Kv.Codec.finish
    parallax_kv.Kv.StateMachine.apply parallax_kv.Kv.StateMachine.execute Node.advance
    parallax_kv.Raft.Log.stable_to parallax_kv.Raft.Unstable.stable_to
    parallax_kv.Raft.Log.applied_to
processes = refl

has_none : Node.has_ready applied.node ≡ some false
unfolding Node.has_ready process Node.ready parallax_kv.Raft.Log.next_committed_ents start_drain
    handle parallax_kv.Server.Drive.handle_request Node.step parallax_kv.Raft.Step.step
    parallax_kv.Raft.Step.step_propose parallax_kv.Raft.Replication.append_entry
    parallax_kv.Raft.Log.last_index parallax_kv.Raft.Unstable.maybe_last_index
    parallax_kv.Raft.Log.append parallax_kv.Raft.Unstable.truncate_append
    parallax_kv.Raft.Replication.stamp_entries parallax_kv.Storage.Disk.Log.last_index
    parallax_kv.Storage.Disk.new parallax_kv.Raft.Replication.update_progress
    parallax_kv.Base.GoMap.get parallax_kv.Raft.Replication.maybe_commit
    parallax_kv.Raft.Replication.majority_index parallax_kv.Raft.Replication.matches
    parallax_kv.Base.GoMap.put parallax_kv.Raft.Replication.quorum_match
    parallax_kv.Raft.Core.quorum parallax_kv.Base.sort_by parallax_kv.Base.insert_by
    parallax_kv.Raft.Log.maybe_commit parallax_kv.Raft.Progress.maybe_update
    parallax_kv.Raft.Log.term parallax_kv.Raft.Log.first_index
    parallax_kv.Raft.Unstable.maybe_first_index parallax_kv.Storage.Disk.Log.first_index
    parallax_kv.Raft.Unstable.maybe_term parallax_kv.Raft.Log.commit_to
    parallax_kv.Raft.Reads.release_pending_read_index_messages
    parallax_kv.Raft.Reads.committed_entry_in_current_term parallax_kv.Raft.Core.for_each
    parallax_kv.Raft.Replication.bcast_append parallax_kv.Raft.Log.slice
    parallax_kv.Server.Persist.persist parallax_kv.Storage.Disk.Log.append_entries
    parallax_kv.Raft.Core.hard_state parallax_kv.Storage.Disk.Segments.sync_batch
    parallax_kv.Storage.Disk.Segments.sync_buffered parallax_kv.Storage.Disk.Log.set_hard_state
    parallax_kv.Storage.Disk.Framing.append_frame parallax_kv.Storage.Disk.Log.buffer_entries
    parallax_kv.Storage.Disk.Framing.frame parallax_kv.Base.be_bytes
    parallax_kv.Storage.Disk.Framing.encode_entry encode_command
    parallax_kv.Kv.Codec.append_opt_bytes parallax_kv.Kv.Codec.append_uint32
    parallax_kv.Kv.Codec.append_string parallax_kv.Kv.Codec.append_uint64
    parallax_kv.Storage.Disk.Framing.encode_hard_state parallax_kv.Storage.Disk.Os.write
    parallax_kv.Storage.Disk.Segments.segment_name parallax_kv.Base.padded
    parallax_kv.Storage.Disk.Os.sync parallax_kv.Server.Drive.install_snapshot
    parallax_kv.Server.Waiters.apply_entry parallax_kv.Server.Waiters.check_leadership
    parallax_kv.Kv.Command.decode_command parallax_kv.Kv.Codec.byte parallax_kv.Kv.Codec.uint64
    parallax_kv.Kv.Codec.string parallax_kv.Kv.Codec.uint32 parallax_kv.Kv.Codec.bytes_n
    parallax_kv.Base.be_value parallax_kv.Kv.Codec.opt_bytes parallax_kv.Kv.Codec.finish
    parallax_kv.Kv.StateMachine.apply parallax_kv.Kv.StateMachine.execute Node.advance
    parallax_kv.Raft.Log.stable_to parallax_kv.Raft.Unstable.stable_to
    parallax_kv.Raft.Log.applied_to parallax_kv.Raft.Log.has_next_committed_ents
has_none = refl

answered_once_example : times 5 applied.server.answers ≤ load 5 start.server + asks 5 (write ∷ [])
answered_once_example =
    answered_once 5 (handled write handles (batch has_work processes (drained has_none)) idle)

process-IsSent_example :
    (applied.sent ≡ (start_drain proposed).sent) ⊎ IsSent (start_drain proposed) applied
process-IsSent_example = process-IsSent (start_drain proposed) none applied processes

-- a batch with a vote and an entry
abbrev stored_entry : Entry
stored_entry = record {
  term = 4;
  index = 1;
  type = entry_normal;
  payload = encode_command first_put;
}

abbrev to_store : Ready
to_store = record {
  hard_state = some (record { term = 4; vote = 1; commit = 0 });
  entries = stored_entry ∷ [];
  snapshot = none;
  committed_entries = [];
  messages = [];
  read_states = [];
  must_sync = true;
}

stored_entry-IsEncodable : IsEncodable stored_entry
unfolding type_byte type_of_byte encode_command parallax_kv.Kv.Codec.append_opt_bytes
    parallax_kv.Kv.Codec.append_uint32 parallax_kv.Kv.Codec.append_string
    parallax_kv.Kv.Codec.append_uint64 parallax_kv.Base.be_bytes
stored_entry-IsEncodable = record {
  term = omega arith;
  index = omega arith;
  type_bound = omega arith;
  type_name = refl;
  payload = omega arith;
}

in_order : contiguous 1 (stored_entry ∷ []) ≡ true
unfolding contiguous
in_order = refl

fits : EntriesFit first_store (stored_entry ∷ [])
unfolding new encode_command parallax_kv.Kv.Codec.append_opt_bytes
    parallax_kv.Kv.Codec.append_uint32 parallax_kv.Kv.Codec.append_string
    parallax_kv.Kv.Codec.append_uint64 parallax_kv.Base.be_bytes
fits = (((stored_entry-IsEncodable, omega arith), tt), in_order, omega arith)

persist-Survives_example :
    (s' : Storage) × (d' : Directory) × (m : Mem.Storage) × (persist to_store
        (calm first_store (with_segment [] 1))
      ≡ some (ok tt, calm s' d'))
    × (Mem.append_entries (mem_of first_store) to_store.entries ≡ some (m, none))
    × Survives s' d' (with_state m to_store.hard_state)
persist-Survives_example =
    persist-Survives to_store (first open_storage_first) (unfold new in omega arith) refl refl fits
      (omega arith, omega arith, omega arith)

-- a read waits for index 3
abbrev reader : Server
reader = record fresh { pending_reads = record { index = 3; request_ctx = 1 ∷ [] } ∷ [] }

abbrev or_reader : Option Server → Server
or_reader none = reader
or_reader (some s) = s

abbrev written : Server
written = or_reader (apply_entries reader (stored_entry ∷ []))

applies : apply_entries reader (stored_entry ∷ []) ≡ some written
unfolding apply_entries parallax_kv.Server.Waiters.apply_entry encode_command
    parallax_kv.Kv.Codec.append_opt_bytes parallax_kv.Kv.Codec.append_uint32
    parallax_kv.Kv.Codec.append_string parallax_kv.Kv.Codec.append_uint64
    parallax_kv.Kv.Command.decode_command parallax_kv.Kv.Codec.byte parallax_kv.Kv.Codec.uint64
    parallax_kv.Base.be_bytes parallax_kv.Kv.Codec.string parallax_kv.Kv.Codec.uint32
    parallax_kv.Kv.Codec.bytes_n parallax_kv.Base.be_value parallax_kv.Kv.Codec.opt_bytes
    parallax_kv.Kv.Codec.finish parallax_kv.Kv.StateMachine.apply parallax_kv.Base.GoMap.get
    parallax_kv.Kv.StateMachine.execute
applies = refl

apply_entries-execute_all_example :
    (execute_all new_state_machine (commands (stored_entry ∷ [])) ≡ some written.sm)
    × (written.applied ≡ 1)
apply_entries-execute_all_example =
    apply_entries-execute_all reader written (stored_entry ∷ []) 1 in_order (omega arith) applies

batch-AllWait_example :
    AllWait (release_reads written (record { index = 2; request_ctx = 2 ∷ [] } ∷ []))
unfolding encode_command parallax_kv.Kv.Codec.append_opt_bytes parallax_kv.Kv.Codec.append_uint32
    parallax_kv.Kv.Codec.append_string parallax_kv.Kv.Codec.append_uint64
    parallax_kv.Kv.Command.decode_command parallax_kv.Kv.Codec.byte parallax_kv.Kv.Codec.uint64
    parallax_kv.Base.be_bytes parallax_kv.Kv.Codec.string parallax_kv.Kv.Codec.uint32
    parallax_kv.Kv.Codec.bytes_n parallax_kv.Base.be_value parallax_kv.Kv.Codec.opt_bytes
    parallax_kv.Kv.Codec.finish
batch-AllWait_example =
    batch-AllWait reader written (stored_entry ∷ [])
      (record { index = 2; request_ctx = 2 ∷ [] } ∷ []) refl refl applies

abbrev alone : Config
alone = record {
  id = 1;
  peers = (1, []) ∷ [];
  tick_interval_millis = 20;
  election_ticks = 10;
  heartbeat_ticks = 1;
  unsafe_no_sync = false;
}

abbrev voted : HardState
voted = record { term = 4; vote = 1; commit = 0 }

restarted-Remembers_example :
    (s' : Storage) × (d' : Directory) × (persist to_store (calm first_store (with_segment [] 1))
      ≡ some (ok tt, calm s' d'))
    × ((m : ℕ) (l : Loop)
        → new_server alone
            (λ k. 7)
            (record { directory = crash_image s' d' m; faults = []; unsynced = [] })
          ≡ some (ok l)
        → Remembers voted l.node.raft)
restarted-Remembers_example =
    restarted-Remembers to_store voted alone (λ k. 7) (first open_storage_first)
      (unfold new in omega arith) refl refl refl fits (omega arith, omega arith, omega arith)

-- an entry that does not decode, and one that does
apply_entries_total_example :
    (t : Server) × (apply_entries reader
        (record stored_entry { payload = 255 ∷ [] } ∷ stored_entry ∷ [])
      ≡ some t)
apply_entries_total_example =
    apply_entries_total reader (record stored_entry { payload = 255 ∷ [] } ∷ stored_entry ∷ [])
