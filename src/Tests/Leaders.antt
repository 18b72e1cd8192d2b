-- ===== src/Tests/Leaders.antt =====
-- A candidate that is elected by its own vote and the one of node 2.
use parallax_kv.Base.{◌≡◌, refl, true, false, Option, none, some, List, [], ◌∷◌}
use parallax_kv.Raft.Types.{Message, blank, msg_vote_resp, state_candidate, state_leader}
use parallax_kv.Raft.Core.{Raft}
use parallax_kv.Raft.Step
use parallax_kv.Raft.Step.{Returned}
use parallax_kv.Raft.Safety.Ballots.{IsElected}
use parallax_kv.Raft.Safety.Leaders.{step-IsElected}
use parallax_kv.Tests.Data.{follower}

abbrev candidate : Raft
candidate = record follower { state = state_candidate; vote = 1; votes = (1, true) ∷ [] }

abbrev response : Message
response = record (blank msg_vote_resp) { from = 2; to = 1; term = 4 }

abbrev state_of : Option (Returned × Raft) → Raft
state_of none = candidate
state_of (some (a, r)) = r

abbrev elected : Raft
elected = state_of (Step.step response candidate)

steps : Step.step response candidate ≡ some (none, elected)
unfolding Step.step Step.step_by_type Step.step_peer Step.has_lease Step.term_rules Step.dispatch
    Step.by_role Step.step_candidate Step.contend Step.count_ballot Step.win
    parallax_kv.Raft.Core.record_vote parallax_kv.Base.GoMap.get parallax_kv.Raft.Core.quorum
    parallax_kv.Raft.Core.count_votes parallax_kv.Base.GoMap.put
    parallax_kv.Raft.Election.become_leader parallax_kv.Raft.Core.reset
    parallax_kv.Raft.Core.reset_randomized_election_timeout parallax_kv.Raft.Log.last_index
    parallax_kv.Raft.Unstable.maybe_last_index parallax_kv.Raft.Replication.append_entry
    parallax_kv.Raft.Log.append parallax_kv.Raft.Unstable.truncate_append
    parallax_kv.Raft.Replication.stamp_entries parallax_kv.Raft.Core.fresh_progress
    parallax_kv.Raft.Replication.update_progress parallax_kv.Raft.Progress.maybe_update
    parallax_kv.Raft.Replication.maybe_commit parallax_kv.Raft.Replication.majority_index
    parallax_kv.Raft.Replication.matches parallax_kv.Raft.Replication.quorum_match
    parallax_kv.Base.sort_by parallax_kv.Base.insert_by parallax_kv.Raft.Log.maybe_commit
    parallax_kv.Raft.Replication.bcast_append parallax_kv.Raft.Core.for_each
    parallax_kv.Raft.Replication.append_to parallax_kv.Raft.Replication.send_append
    parallax_kv.Raft.Replication.send_from parallax_kv.Raft.Replication.with_prev_term
    parallax_kv.Raft.Replication.with_entries parallax_kv.Raft.Replication.entries_to_send
    parallax_kv.Raft.Log.term parallax_kv.Raft.Log.first_index
    parallax_kv.Raft.Unstable.maybe_first_index parallax_kv.Raft.Unstable.maybe_term
    parallax_kv.Raft.Log.slice parallax_kv.Raft.Core.send
steps = refl

leads : elected.state ≡ state_leader
unfolding Step.step Step.step_by_type Step.step_peer Step.has_lease Step.term_rules Step.dispatch
    Step.by_role Step.step_candidate Step.contend Step.count_ballot Step.win
    parallax_kv.Raft.Core.record_vote parallax_kv.Base.GoMap.get parallax_kv.Raft.Core.quorum
    parallax_kv.Raft.Core.count_votes parallax_kv.Base.GoMap.put
    parallax_kv.Raft.Election.become_leader parallax_kv.Raft.Core.reset
    parallax_kv.Raft.Core.reset_randomized_election_timeout parallax_kv.Raft.Log.last_index
    parallax_kv.Raft.Unstable.maybe_last_index parallax_kv.Raft.Replication.append_entry
    parallax_kv.Raft.Log.append parallax_kv.Raft.Unstable.truncate_append
    parallax_kv.Raft.Replication.stamp_entries parallax_kv.Raft.Core.fresh_progress
    parallax_kv.Raft.Replication.update_progress parallax_kv.Raft.Progress.maybe_update
    parallax_kv.Raft.Replication.maybe_commit parallax_kv.Raft.Replication.majority_index
    parallax_kv.Raft.Replication.matches parallax_kv.Raft.Replication.quorum_match
    parallax_kv.Base.sort_by parallax_kv.Base.insert_by parallax_kv.Raft.Log.maybe_commit
    parallax_kv.Raft.Replication.bcast_append parallax_kv.Raft.Core.for_each
    parallax_kv.Raft.Replication.append_to parallax_kv.Raft.Replication.send_append
    parallax_kv.Raft.Replication.send_from parallax_kv.Raft.Replication.with_prev_term
    parallax_kv.Raft.Replication.with_entries parallax_kv.Raft.Replication.entries_to_send
    parallax_kv.Raft.Log.term parallax_kv.Raft.Log.first_index
    parallax_kv.Raft.Unstable.maybe_first_index parallax_kv.Raft.Unstable.maybe_term
    parallax_kv.Raft.Log.slice parallax_kv.Raft.Core.send
leads = refl

step-IsElected_example : IsElected response candidate
step-IsElected_example = step-IsElected response candidate none elected refl leads steps
