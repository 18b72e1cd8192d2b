-- ===== src/Server/Start.antt =====
-- server/server.go, New: a server from its data directory. Without the addresses, which only the
-- transport and the service read. After an error the store is closed again and nothing is left.
use parallax_kv.Base.{
  ℕ, ◌*◌, Bool, true, false, Option, none, some, [], Bytes, Outcome, ok, err, ltb, leb, ◌==◌,
  nat_eq, if◌then◌else◌,
}
use parallax_kv.Base.Panics.{◌>>=◌}
use parallax_kv.Base.GoMap
use parallax_kv.Base.GoMap.{GoMap}
use parallax_kv.Raft.Config.{Config as RaftConfig}
use parallax_kv.Raft.Node.{Node, NodeError, new_node}
use parallax_kv.Kv.Codec.{DecodeError}
use parallax_kv.Kv.StateMachine.{StateMachine, new_state_machine}
use parallax_kv.Storage.Disk.{DiskError}
use parallax_kv.Storage.Disk.Os.{Os, World}
use parallax_kv.Storage.Disk.Segments.{disable_sync}
use parallax_kv.Storage.Disk.Wal.{open_storage}
use parallax_kv.Server.{Server}
use parallax_kv.Server.Persist.{as_log_storage}
use parallax_kv.Server.Drive.{Loop, restored}

pub record Config : Type 0 where
  pub id : ℕ
  -- the peers' addresses
  pub peers : GoMap ℕ Bytes
  pub tick_interval_millis : ℕ
  pub election_ticks : ℕ
  pub heartbeat_ticks : ℕ
  pub unsafe_no_sync : Bool

pub data StartError : Type 0 where
  id_not_positive self_not_in_peers : StartError
  not_opened : DiskError → StartError
  no_node : NodeError → StartError
  not_resumed : DecodeError → StartError

abbrev pub or_default : ℕ → ℕ → ℕ
or_default n d = if n == 0 then d else n

-- withDefaults
unfoldable pub with_defaults : Config → Config
with_defaults c =
    let heartbeat = or_default c.heartbeat_ticks 5 in
    record c {
      tick_interval_millis = or_default c.tick_interval_millis 20;
      heartbeat_ticks = heartbeat;
      election_ticks = if leb c.election_ticks heartbeat then 10 * heartbeat else c.election_ticks;
    }

-- the configuration of the core; `rand` is the source of its numbers
abbrev pub raft_config : Config → (ℕ → ℕ) → RaftConfig
raft_config c rand = record {
  id = c.id;
  peers = GoMap.keys c.peers;
  election_ticks = c.election_ticks;
  heartbeat_ticks = c.heartbeat_ticks;
  max_entries_per_append = 0;
  pre_vote = true;
  rand = some rand;
}

abbrev pub idle_server : StateMachine → ℕ → Server
idle_server sm applied = record {
  sm = sm;
  applied = applied;
  prev_leader = false;
  read_token = 0;
  pending_reads = [];
  write_waiters = GoMap.empty;
  read_waiters = GoMap.empty;
  answers = [];
}

abbrev pub started : World → Node → StateMachine → ℕ → Loop
started w n sm applied = record { server = idle_server sm applied; node = n; world = w; sent = [] }

-- The state machine resumes from the snapshot of the store.
unfoldable pub resumed : World → Node → StateMachine × Option DecodeError → Outcome StartError Loop
resumed w n (sm, none) = ok (started w n sm w.storage.snapshot.metadata.index)
resumed w n (sm, some e) = err (not_resumed e)

unfoldable pub with_node : World → Outcome NodeError Node → Outcome StartError Loop
unfolding resumed
with_node w (err e) = err (no_node e)
with_node w (ok n) =
    if ltb 0 w.storage.snapshot.metadata.index
    then resumed w n (restored new_state_machine w.storage.snapshot)
    else ok (started w n new_state_machine 0)

abbrev pub sync_mode : Bool → World → World
sync_mode off w = if off then record w { storage = disable_sync w.storage } else w

unfoldable pub with_store :
    Config → (ℕ → ℕ) → Outcome DiskError (Unit {0}) × World → Option (Outcome StartError Loop)
unfolding with_node
with_store c rand (err e, w) = some (err (not_opened e))
with_store c rand (ok u, w) = do
  let w' = sync_mode c.unsafe_no_sync w
  made ← new_node (raft_config c rand) (as_log_storage w'.storage)
  some (with_node w' made)

-- New
unfoldable pub new_server : Config → (ℕ → ℕ) → Os → Option (Outcome StartError Loop)
unfolding with_store with_defaults
new_server c rand os =
    if c.id == 0 then some (err id_not_positive) else elim (GoMap.get c.peers c.id) [
      | none ↦ some (err self_not_in_peers)
      | some address ↦ with_store (with_defaults c) rand (open_storage os)
    ]
