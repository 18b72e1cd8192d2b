-- ===== src/Raft/Safety/Campaigns.antt =====
-- raft/raft.go, campaign and solicitVotes: what a campaign does to the term and to the vote.
use parallax_kv.Base.{
  ℕ, ◌+◌, ◌^◌, ◌<◌, ◌≡◌, refl, Bool, true, false, Option, none, some, arith, if◌then◌else◌, add64,
  nat_eq,
}
use native.Mathlib.Nat.{le_refl}
use parallax_kv.Raft.Types.{MessageType, msg_pre_vote}
use parallax_kv.Raft.Core.{Raft, Action, Done, ◌>>◌, record_vote, reset_randomized_election_timeout}
use parallax_kv.Raft.Keeps.{Keeps, keeps_rules, >>=-eq-some}
use parallax_kv.Raft.Election.{
  become_pre_candidate, become_candidate, become_leader, request_votes, ask, solicit_with,
  solicit_votes, solicit_votes_as_candidate, campaign, panic_if,
}
use parallax_kv.Raft.Safety.Quiet.{Quiet, quiet_rules}
use parallax_kv.Raft.Safety.Elections.{
  Steady, Steady-order, Quiet-Steady, Advances, Advances-order, Steady-Advances,
  become_candidate-Advances, become_leader-Steady, record_vote-Steady,
}

ask-Quiet : (t : MessageType) (vt li lt id : ℕ) → Keeps Quiet (ask t vt li lt id)
unfolding ask
ask-Quiet t vt li lt id = search quiet_rules depth 14

request_votes-Quiet : (t : MessageType) (vt : ℕ) → Keeps Quiet (request_votes t vt)
unfolding request_votes
request_votes-Quiet t vt = search (quiet_rules, ask-Quiet) depth 14

ruleset steady_rules = (
  Steady-order, keeps_rules, Quiet-Steady, record_vote-Steady, request_votes-Quiet, refl, le_refl,
)

solicit_with-Steady :
    (win : Action Done) (t : MessageType) (vt : ℕ)
    → Keeps Steady win
    → Keeps Steady (solicit_with win t vt)
unfolding solicit_with
solicit_with-Steady win t vt h = search steady_rules depth 14

pub solicit_votes_as_candidate-Steady : Keeps Steady solicit_votes_as_candidate
unfolding solicit_votes_as_candidate
solicit_votes_as_candidate-Steady =
    search (steady_rules, solicit_with-Steady, become_leader-Steady) depth 14

-- The role changes through panic_if leave the state that they test.
panic_if-Steady : (b : Raft → Bool) → Keeps Steady (panic_if b)
panic_if-Steady b = record { at = λ r u s e. tested r u s (b r) e }
  where
    tested :
        (r : Raft) (u : Done) (s : Raft) (x : Bool)
        → ◌≡◌ {A = Option (Done × Raft)} (if x then none else some (tt, r)) (some (u, s))
        → Steady r s
    tested r u s true e = cc
    tested r u s false e = ground arith

draw_timeout-Steady : Keeps Steady reset_randomized_election_timeout
unfolding reset_randomized_election_timeout
draw_timeout-Steady = record { at = λ r u s e. ground arith }

become_pre_candidate-Steady : Keeps Steady become_pre_candidate
unfolding become_pre_candidate
become_pre_candidate-Steady = search (steady_rules, panic_if-Steady, draw_timeout-Steady) depth 12

-- A campaign for the next term, from a state whose term does not wrap around.
pub record Campaigns (r s : Raft) : Type 0 where
  pub advances : r.term + 1 < 2 ^ 64 → Advances r s

pub Steady-Campaigns : {r s t : Raft} → Steady r s → Campaigns s t → Campaigns r t
Steady-Campaigns {r} {s} {t} h c = record {
  advances = λ fits.
      Advances-order.transitive r s t (Steady-Advances h) (c.advances (omega (arith, h.term)));
}

pub candidacy-Campaigns : Keeps Campaigns (become_candidate >> solicit_votes_as_candidate)
candidacy-Campaigns = record {
  at = λ r u s e. record {
    advances = λ fits.
        let (v, m, done, rest) = >>=-eq-some become_candidate _ r e in
        Advances-order.transitive r m s ((become_candidate-Advances r v m fits done).1)
          (Steady-Advances (solicit_votes_as_candidate-Steady.at m u s rest));
  };
}

pub become_leader_and_then-Steady :
    (m : Action Done) → Keeps Quiet m → Keeps Steady (become_leader >> m)
become_leader_and_then-Steady m h = search (steady_rules, become_leader-Steady) depth 8

solicit_pre_votes-Campaigns :
    (t : MessageType) (vt : ℕ)
    → Keeps Campaigns (solicit_with (become_candidate >> solicit_votes_as_candidate) t vt)
unfolding solicit_with
solicit_pre_votes-Campaigns t vt = record {
  at = λ r u s e.
      let (v, m, done, rest) = >>=-eq-some (record_vote r.id true) _ r e in
      Steady-Campaigns ((record_vote-Steady r.id true).at r v m done) (won m u s _ rest);
}
  where
    won :
        (r : Raft) (u : Done) (s : Raft) (b : Bool)
        → (if b then become_candidate >> solicit_votes_as_candidate else request_votes t vt) r
          ≡ some (u, s)
        → Campaigns r s
    won r u s true e = candidacy-Campaigns.at r u s e
    won r u s false e = record {
      advances = λ fits. Steady-Advances ((Quiet-Steady (request_votes-Quiet t vt)).at r u s e);
    }

pub campaign-Campaigns : Keeps Campaigns campaign
unfolding campaign solicit_votes
campaign-Campaigns = record { at = λ r u s e. started r u s r.cfg.pre_vote e }
  where
    started :
        (r : Raft) (u : Done) (s : Raft) (b : Bool)
        → (if b
              then become_pre_candidate >> solicit_votes msg_pre_vote (add64 r.term 1)
              else become_candidate >> solicit_votes_as_candidate)
            r
          ≡ some (u, s)
        → Campaigns r s
    started r u s true e =
        let (v, m, done, rest) = >>=-eq-some become_pre_candidate _ r e in
        Steady-Campaigns (become_pre_candidate-Steady.at r v m done)
          ((solicit_pre_votes-Campaigns msg_pre_vote (add64 r.term 1)).at m u s rest)
    started r u s false e = candidacy-Campaigns.at r u s e
