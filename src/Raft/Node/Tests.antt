-- ===== src/Raft/Node/Tests.antt =====
-- A node that is made from a storage of term 6 with a vote for node 2.
use parallax_kv.Base.{◌≡◌, refl, Option, none, some, List, [], ◌∷◌, ok, err, true, false}
use parallax_kv.Base.GoMap
use parallax_kv.Raft.Types.{HardState, state_follower}
use parallax_kv.Raft.LogStorage.{LogStorage, unavailable}
use parallax_kv.Raft.Config.{Config}
use parallax_kv.Raft.ReadOnly.{new_read_only}
use parallax_kv.Raft.Core.{Raft}
use parallax_kv.Raft.Node.{new_raft}
use parallax_kv.Raft.Node.Restart.{Remembers, new_raft-Remembers}

abbrev alone : Config
alone = record {
  id = 1;
  peers = 1 ∷ 2 ∷ [];
  election_ticks = 10;
  heartbeat_ticks = 1;
  max_entries_per_append = 0;
  pre_vote = false;
  rand = some (λ k. 7);
}

abbrev stored : HardState
stored = record { term = 6; vote = 2; commit = 0 }

abbrev storage : LogStorage
storage = record {
  hard_state = ok stored;
  entries = λ lo hi. ok [];
  term = λ i. ok 0;
  first_index = ok 1;
  last_index = ok 0;
  snapshot = err unavailable;
}

abbrev restarted : Raft
restarted = record {
  cfg = alone;
  id = 1;
  term = 6;
  vote = 2;
  raft_log = record {
    storage = storage;
    unstable = record { snapshot = none; entries = []; offset = 1 };
    committed = 0;
    applied = 0;
  };
  state = state_follower;
  lead = 0;
  peers = 1 ∷ 2 ∷ [];
  prs = (1, record { matched = 0; next = 1 }) ∷ (2, record { matched = 0; next = 1 }) ∷ [];
  votes = GoMap.empty;
  msgs = [];
  read_states = [];
  read_only = new_read_only;
  pending_read_index_messages = [];
  election_elapsed = 0;
  heartbeat_elapsed = 0;
  heartbeat_timeout = 1;
  randomized_election_timeout = 17;
  prev_hard_st = stored;
  draws = 1;
}

restarts : new_raft alone storage ≡ some (ok restarted)
unfolding new_raft parallax_kv.Raft.Log.new_log parallax_kv.Raft.Election.become_follower
    parallax_kv.Raft.Core.reset parallax_kv.Raft.Core.reset_randomized_election_timeout
    parallax_kv.Raft.Log.last_index parallax_kv.Raft.Unstable.maybe_last_index
    parallax_kv.Base.sort_by parallax_kv.Raft.Core.fresh_progress parallax_kv.Base.insert_by
    GoMap.put
restarts = refl

new_raft-Remembers_example : Remembers stored restarted
new_raft-Remembers_example = new_raft-Remembers alone storage stored restarted refl restarts
