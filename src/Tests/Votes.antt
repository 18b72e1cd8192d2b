-- ===== src/Tests/Votes.antt =====
-- A vote that is asked for twice.
use parallax_kv.Base.{ℕ, ◌≡◌, refl, true, false, Option, none, some, List, [], ◌∷◌, ◌++◌, arith}
use parallax_kv.Raft.Types.{Message, blank, msg_vote_resp}
use parallax_kv.Raft.Core.{Raft}
use parallax_kv.Raft.Step
use parallax_kv.Raft.Node
use parallax_kv.Raft.Node.{Node}
use parallax_kv.Raft.Election
use parallax_kv.Raft.Safety.Elections.{Advances}
use parallax_kv.Raft.Safety.Votes.{VotesFor, vote-VotesFor}
use parallax_kv.Raft.Safety.Runs.{Runs, halted, ticked, persisted, Runs-Advances, grants_once}
use parallax_kv.Tests.Data.{empty_log, follower, of_raft, vote_request}

abbrev grant : Message
grant = record (blank msg_vote_resp) { from = 1; to = 2; term = 4 }

abbrev voted : List Message → Raft
voted ms = record follower { vote = 2; election_elapsed = 0; msgs = ms }

voted_once : Node.step (of_raft follower) vote_request ≡ some (none, of_raft (voted (grant ∷ [])))
unfolding Node.step Step.step Step.step_by_type Step.step_peer Step.has_lease Step.term_rules
    Step.handle_vote_request parallax_kv.Raft.Log.is_up_to_date parallax_kv.Raft.Log.last_term
    parallax_kv.Raft.Log.last_index parallax_kv.Raft.Unstable.maybe_last_index
    parallax_kv.Raft.Log.term parallax_kv.Raft.Log.first_index
    parallax_kv.Raft.Unstable.maybe_first_index parallax_kv.Raft.Unstable.maybe_term Step.grants
    parallax_kv.Raft.Core.send
voted_once = refl

-- the same request, sent again later
abbrev again : Message
again = record vote_request { log_index = 1; log_term = 1 }

abbrev waited : List Message → Raft
waited ms = record (voted ms) { election_elapsed = 1 }

ticked_once : Node.tick (of_raft (voted (grant ∷ []))) ≡ some (of_raft (waited (grant ∷ [])))
unfolding Node.tick Election.tick Election.tick_election parallax_kv.Raft.Core.promotable
    parallax_kv.Base.GoMap.get
ticked_once = refl

voted_twice :
    Node.step (of_raft (waited (grant ∷ []))) again
    ≡ some (none, of_raft (voted (grant ∷ grant ∷ [])))
unfolding Node.step Step.step Step.step_peer Step.has_lease Step.term_rules Step.handle_vote_request
    parallax_kv.Raft.Log.is_up_to_date parallax_kv.Raft.Log.last_term
    parallax_kv.Raft.Log.last_index parallax_kv.Raft.Unstable.maybe_last_index
    parallax_kv.Raft.Log.term parallax_kv.Raft.Log.first_index
    parallax_kv.Raft.Unstable.maybe_first_index parallax_kv.Raft.Unstable.maybe_term Step.grants
    parallax_kv.Raft.Core.send
voted_twice = refl

onward_run : Runs (of_raft (voted (grant ∷ []))) (of_raft (waited (grant ∷ [])))
onward_run = persisted empty_log.storage (ticked (omega arith) ticked_once halted)

grants_once_example : vote_request.from ≡ again.from
grants_once_example =
    grants_once vote_request again (of_raft follower) (of_raft (voted (grant ∷ [])))
      (of_raft (waited (grant ∷ []))) (of_raft (voted (grant ∷ grant ∷ []))) none none refl refl
      (omega arith) (omega arith) refl (omega arith) voted_once
      (record { reply = grant; sent = refl; granted = refl }) onward_run voted_twice
      (record { reply = grant; sent = refl; granted = refl })

Runs-Advances_example : Advances (voted (grant ∷ [])) (waited (grant ∷ []))
Runs-Advances_example =
    Runs-Advances (of_raft (voted (grant ∷ []))) (of_raft (waited (grant ∷ []))) onward_run

raft_votes : Step.step vote_request follower ≡ some (none, voted (grant ∷ []))
unfolding Step.step Step.step_peer Step.has_lease Step.term_rules Step.handle_vote_request
    parallax_kv.Raft.Log.is_up_to_date parallax_kv.Raft.Log.last_term
    parallax_kv.Raft.Log.last_index parallax_kv.Raft.Unstable.maybe_last_index
    parallax_kv.Raft.Log.term parallax_kv.Raft.Log.first_index
    parallax_kv.Raft.Unstable.maybe_first_index parallax_kv.Raft.Unstable.maybe_term Step.grants
    parallax_kv.Raft.Core.send
raft_votes = refl

vote-VotesFor_example : VotesFor vote_request (voted (grant ∷ []))
vote-VotesFor_example =
    vote-VotesFor vote_request follower none (voted (grant ∷ [])) refl (omega arith) raft_votes
      (record { reply = grant; sent = refl; granted = refl })
