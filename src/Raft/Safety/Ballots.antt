-- ===== src/Raft/Safety/Ballots.antt =====
-- raft/handlers.go: the role after a handler, and what turns a candidate into a leader.
use parallax_kv.Base.{
  ℕ, ◌≤◌, ◌≡◌, ◌≢◌, ◌⊎◌, inl, inr, refl, sym, subst, ap, ◌∙◌, Bool, true, false, not, ◌&&◌, ◌||◌,
  Option, none, some, List, [], ◌∷◌, arith, if◌then◌else◌, ltb, leb, leb→le, ◌==◌, nat_eq,
}
use parallax_kv.Raft.Types.{
  MessageType, msg_vote_resp, msg_pre_vote_resp, msg_append, msg_heartbeat, msg_install_snapshot,
  Message, state_follower, state_candidate, state_leader,
}
use parallax_kv.Raft.Core.{
  Raft, Action, Done, ◌>>◌, when, no_node, quorum, send, record_vote, tally_granted, tally_rejected,
}
use parallax_kv.Raft.Keeps.{Keeps, IsPreorder, keeps_rules, >>=-eq-some}
use parallax_kv.Raft.Election.{become_follower}
use parallax_kv.Raft.Handlers.{handle_append, handle_heartbeat, handle_snapshot}
use parallax_kv.Raft.Step.{
  from_leader, follow, contend, count_ballot, win, lose, handle_vote_request, is_pre_candidate,
}
use parallax_kv.Raft.Safety.Quiet.{Quiet}
use parallax_kv.Raft.Safety.Handled.{
  handle_append-Quiet, handle_heartbeat-Quiet, handle_snapshot-Quiet,
}
use parallax_kv.Raft.Safety.Elections.{become_follower-HasTerm}

-- The role is as before.
pub record SameRole (r s : Raft) : Type 0 where
  pub role : s.state ≡ r.state

pub SameRole-order : IsPreorder SameRole
SameRole-order = record {
  reflexive = λ r. record { role = refl };
  transitive = λ r s t p q. record { role = q.role ∙ p.role };
}

pub Quiet-SameRole : {A : Type 0} {m : Action A} → Keeps Quiet m → Keeps SameRole m
Quiet-SameRole q = record { at = λ r a s e. record { role = (q.at r a s e).state } }

pub send-SameRole : (m : Message) → Keeps SameRole (send m)
unfolding send
send-SameRole m = record { at = λ r u s e. ground arith }

pub ruleset role_rules = (SameRole-order, keeps_rules, Quiet-SameRole, send-SameRole, refl)

from_leader-SameRole : (m : Message) → Keeps SameRole (from_leader m)
unfolding from_leader
from_leader-SameRole m = search role_rules depth 8

pub follow-SameRole : (t : MessageType) (m : Message) → Keeps SameRole (follow t m)
unfolding follow
follow-SameRole msg_append m =
    search (role_rules, from_leader-SameRole, handle_append-Quiet) depth 8
follow-SameRole msg_heartbeat m =
    search (role_rules, from_leader-SameRole, handle_heartbeat-Quiet) depth 8
follow-SameRole msg_install_snapshot m =
    search (role_rules, from_leader-SameRole, handle_snapshot-Quiet) depth 8
follow-SameRole _ m = search role_rules depth 8

pub handle_vote_request-SameRole : (m : Message) → Keeps SameRole (handle_vote_request m)
unfolding handle_vote_request
handle_vote_request-SameRole m = search role_rules depth 14

-- A ballot of the term is counted, and then a quorum has granted its vote.
pub record IsElected (m : Message) (r : Raft) : Type 0 where
  pub ballot : m.type ≡ msg_vote_resp
  pub counted : Raft
  pub recorded : record_vote m.from (not m.reject) r ≡ some (tt, counted)
  pub majority : quorum counted ≤ tally_granted counted

-- A candidate that steps down is no leader.
stepped_down :
    (h : Action Done) (m : Message) (r : Raft) (u : Done) (s : Raft)
    → Keeps Quiet h
    → (become_follower m.term m.from >> h) r ≡ some (u, s)
    → s.state ≡ state_follower
stepped_down h m r u s q e =
    let (v, k, done, rest) = >>=-eq-some (become_follower m.term m.from) _ r e in
    let (t, vt, c, st) = become_follower-HasTerm m.term m.from r v k done in
    (q.at k u s rest).state ∙ st

not_won :
    (b : Bool) (r : Raft) (u : Done) (s : Raft)
    → r.state ≡ state_candidate
    → when b lose r ≡ some (u, s)
    → s.state ≢ state_leader
unfolding lose
not_won true r u s c e l = let (t, v, cm, st) = become_follower-HasTerm r.term no_node r u s e in cc
not_won false r u s c e l = let same : r ≡ s = cc in cc

record_vote-role :
    (id : ℕ) (g : Bool) (r : Raft) (u : Done) (k : Raft)
    → record_vote id g r ≡ some (u, k)
    → k.state ≡ r.state
unfolding record_vote
record_vote-role id g r u k e = ground arith

count_ballot-IsElected :
    (m : Message) (r : Raft) (u : Done) (s : Raft)
    → m.type ≡ msg_vote_resp
    → r.state ≡ state_candidate
    → s.state ≡ state_leader
    → count_ballot m r ≡ some (u, s)
    → IsElected m r
unfolding count_ballot
count_ballot-IsElected m r u s p c l e =
    let (v, k, done, rest) = >>=-eq-some (record_vote m.from (not m.reject)) _ r e in
    let role = record_vote-role m.from (not m.reject) r v k done in
    counted (leb (quorum k) (tally_granted k)) (leb (quorum k) (tally_rejected k)) k done (role ∙ c)
      refl rest
  where
    counted :
        (a b : Bool) (k : Raft)
        → record_vote m.from (not m.reject) r ≡ some (tt, k)
        → k.state ≡ state_candidate
        → leb (quorum k) (tally_granted k) ≡ a
        → (if a then win else when b lose) k ≡ some (u, s)
        → IsElected m r
    counted true b k done c' q e = record {
      ballot = p;
      counted = k;
      recorded = done;
      majority = leb→le _ _ q;
    }
    counted false b k done c' q e = absurd (not_won b k u s c' e l)

pub contend-IsElected :
    (t : MessageType) (m : Message) (r : Raft) (u : Done) (s : Raft)
    → m.type ≡ t
    → r.state ≡ state_candidate
    → s.state ≡ state_leader
    → contend t m r ≡ some (u, s)
    → IsElected m r
unfolding contend
contend-IsElected msg_append m r u s p c l e =
    let f = stepped_down (handle_append m) m r u s (handle_append-Quiet m) e in cc
contend-IsElected msg_heartbeat m r u s p c l e =
    let f = stepped_down (handle_heartbeat m) m r u s (handle_heartbeat-Quiet m) e in cc
contend-IsElected msg_install_snapshot m r u s p c l e =
    let f = stepped_down (handle_snapshot m) m r u s (handle_snapshot-Quiet m) e in cc
contend-IsElected msg_vote_resp m r u s p c l e =
    balloted (is_pre_candidate r.state) (ap is_pre_candidate c) e
  where
    balloted :
        (pre : Bool) → pre ≡ false → when (not pre) (count_ballot m) r ≡ some (u, s) → IsElected m r
    balloted false q e = count_ballot-IsElected m r u s p c l e
    balloted true q e = cc
contend-IsElected msg_pre_vote_resp m r u s p c l e =
    probed (is_pre_candidate r.state) (ap is_pre_candidate c) e
  where
    probed : (pre : Bool) → pre ≡ false → when pre (count_ballot m) r ≡ some (u, s) → IsElected m r
    probed false q e = let same : r ≡ s = cc in cc
    probed true q e = cc
contend-IsElected _ m r u s p c l e = let same : r ≡ s = cc in cc
