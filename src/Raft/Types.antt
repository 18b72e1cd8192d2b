-- ===== src/Raft/Types.antt =====
-- raft/types.go: messages, log entries, durable state, and the batch that a driver processes.
use parallax_kv.Base.{ℕ, Bool, false, Option, none, List, [], Bytes}

pub data MessageType : Type 0 where
  msg_unknown msg_propose msg_read_index msg_pre_vote msg_pre_vote_resp msg_vote msg_vote_resp :
      MessageType
  msg_append msg_append_resp msg_heartbeat msg_heartbeat_resp : MessageType
  msg_install_snapshot msg_install_snapshot_resp : MessageType

-- A byte; `entry_other` is one that has no name.
pub data EntryType : Type 0 where
  entry_normal entry_noop : EntryType
  entry_other : ℕ → EntryType

pub record Entry : Type 0 where
  pub term : ℕ
  pub index : ℕ
  pub type : EntryType
  pub payload : Bytes

pub record HardState : Type 0 where
  pub term : ℕ
  pub vote : ℕ
  pub commit : ℕ

pub record SnapshotMetadata : Type 0 where
  pub index : ℕ
  pub term : ℕ

pub record Snapshot : Type 0 where
  pub metadata : SnapshotMetadata
  pub payload : Bytes

-- Node IDs are positive; 0 is "none".
pub record Message : Type 0 where
  pub type : MessageType
  pub from : ℕ
  pub to : ℕ
  pub term : ℕ
  pub log_index : ℕ
  pub log_term : ℕ
  pub entries : List Entry
  pub commit : ℕ
  pub reject : Bool
  pub reject_hint : ℕ
  pub hint_term : ℕ
  pub snapshot : Option Snapshot
  pub context : Bytes

-- Message{}
abbrev pub blank : MessageType → Message
blank t = record {
  type = t;
  from = 0;
  to = 0;
  term = 0;
  log_index = 0;
  log_term = 0;
  entries = [];
  commit = 0;
  reject = false;
  reject_hint = 0;
  hint_term = 0;
  snapshot = none;
  context = [];
}

pub record ReadState : Type 0 where
  pub index : ℕ
  pub request_ctx : Bytes

pub record Ready : Type 0 where
  pub hard_state : Option HardState
  pub entries : List Entry
  pub snapshot : Option Snapshot
  pub committed_entries : List Entry
  pub messages : List Message
  pub read_states : List ReadState
  pub must_sync : Bool

pub data StateType : Type 0 where
  state_follower state_pre_candidate state_candidate state_leader : StateType
