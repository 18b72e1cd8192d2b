-- ===== src/Tests/Data.antt =====
-- A node of a cluster of three, its storage, and the requests that it is stepped with.
use parallax_kv.Base.{false, none, some, [], ◌∷◌, ok, err}
use parallax_kv.Base.GoMap
use parallax_kv.Raft.Types.{Message, blank, msg_vote, HardState, state_follower}
use parallax_kv.Raft.LogStorage.{LogStorage, unavailable}
use parallax_kv.Raft.Config.{Config}
use parallax_kv.Raft.ReadOnly.{new_read_only}
use parallax_kv.Raft.Log.{RaftLog}
use parallax_kv.Raft.Core.{Raft}
use parallax_kv.Raft.Node.{Node}

abbrev pub three_nodes : Config
three_nodes = record {
  id = 1;
  peers = 1 ∷ 2 ∷ 3 ∷ [];
  election_ticks = 10;
  heartbeat_ticks = 1;
  max_entries_per_append = 0;
  pre_vote = false;
  rand = some (λ k. 7);
}

-- A storage without entries.
abbrev pub no_entries : HardState → LogStorage
no_entries hs = record {
  hard_state = ok hs;
  entries = λ lo hi. ok [];
  term = λ i. ok 0;
  first_index = ok 1;
  last_index = ok 0;
  snapshot = err unavailable;
}

abbrev pub no_state : HardState
no_state = record { term = 0; vote = 0; commit = 0 }

abbrev pub empty_log : RaftLog
empty_log = record {
  storage = no_entries no_state;
  unstable = record { snapshot = none; entries = []; offset = 1 };
  committed = 0;
  applied = 0;
}

-- A follower in term 4 that has not voted.
abbrev pub follower : Raft
follower = record {
  cfg = three_nodes;
  id = 1;
  term = 4;
  vote = 0;
  raft_log = empty_log;
  state = state_follower;
  lead = 0;
  peers = 1 ∷ 2 ∷ 3 ∷ [];
  prs = GoMap.empty;
  votes = GoMap.empty;
  msgs = [];
  read_states = [];
  read_only = new_read_only;
  pending_read_index_messages = [];
  election_elapsed = 3;
  heartbeat_elapsed = 0;
  heartbeat_timeout = 1;
  randomized_election_timeout = 17;
  prev_hard_st = record { term = 4; vote = 0; commit = 0 };
  draws = 1;
}

abbrev pub of_raft : Raft → Node
of_raft r = record { raft = r; pending_ready = none }

-- The request of node 2 for a vote in term 4.
abbrev pub vote_request : Message
vote_request = record (blank msg_vote) { from = 2; to = 1; term = 4 }
