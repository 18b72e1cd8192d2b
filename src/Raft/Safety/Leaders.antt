-- ===== src/Raft/Safety/Leaders.antt =====
-- raft/step.go: a candidate that leads after a step has counted a quorum of votes.
use parallax_kv.Base.{
  ℕ, ◌≡◌, ◌⊎◌, inl, inr, refl, sym, subst, ap, ◌∙◌, Bool, true, false, not, ◌&&◌, ◌||◌, some, arith,
  if◌then◌else◌, ltb, ◌==◌, nat_eq,
}
use parallax_kv.Raft.Types.{
  MessageType, msg_propose, msg_read_index, msg_pre_vote, msg_append, msg_heartbeat,
  msg_install_snapshot, Message, StateType, state_follower, state_pre_candidate, state_candidate,
  state_leader,
}
use parallax_kv.Raft.Core.{Raft, Done, ◌>>=◌, ◌>>◌, pure, when}
use parallax_kv.Raft.Keeps.{Keeps, >>=-eq-some}
use parallax_kv.Raft.Election.{become_follower}
use parallax_kv.Raft.Step.{
  step, step_by_type, step_peer, dispatch, by_role, step_follower, step_candidate,
  handle_vote_request, term_rules, adopt_term, answer_stale, refuse_vote, returning, is_vote,
  is_pre_vote, is_pre_vote_resp, has_lease, Returned,
}
use parallax_kv.Raft.Safety.Elections.{become_follower-HasTerm}
use parallax_kv.Raft.Safety.Steps.{step_propose-Quiet, step_read_index-Quiet, refuse_vote-Quiet}
use parallax_kv.Raft.Safety.Ballots.{
  SameRole, Quiet-SameRole, role_rules, follow-SameRole, handle_vote_request-SameRole, IsElected,
  contend-IsElected,
}

-- What the term rules leave of a candidate: itself, or a follower.
adopt_term-role :
    (m : Message) (r : Raft) (u : Done) (k : Raft)
    → adopt_term m r ≡ some (u, k)
    → (k ≡ r) ⊎ (k.state ≡ state_follower)
unfolding adopt_term
adopt_term-role m r u k e =
    adopted (is_pre_vote m.type || is_pre_vote_resp m.type && not m.reject) _ e
  where
    adopted :
        (b : Bool) (l : ℕ)
        → (if b then pure tt else become_follower m.term l) r ≡ some (u, k)
        → (k ≡ r) ⊎ (k.state ≡ state_follower)
    adopted true l e = inl (ground arith)
    adopted false l e = let (t, v, c, st) = become_follower-HasTerm m.term l r u k e in inr st

answer_stale-SameRole : (t : MessageType) (m : Message) → Keeps SameRole (answer_stale t m)
unfolding answer_stale
answer_stale-SameRole msg_append m = search role_rules depth 10
answer_stale-SameRole msg_heartbeat m = search role_rules depth 10
answer_stale-SameRole msg_install_snapshot m = search role_rules depth 10
answer_stale-SameRole msg_pre_vote m = search role_rules depth 10
answer_stale-SameRole _ m = search role_rules depth 10

-- What the term rules leave: the node as it was, or a follower, or the end of the step in the same role.
term_rules-role :
    (m : Message) (r : Raft) (go : Bool) (k : Raft)
    → term_rules m r ≡ some (go, k)
    → (k ≡ r) ⊎ ((k.state ≡ state_follower) ⊎ ((go ≡ false) × (k.state ≡ r.state)))
unfolding term_rules
term_rules-role m r go k e = ruled (m.term == 0) (ltb r.term m.term) (ltb m.term r.term) e
  where
    ruled :
        (zero above below : Bool)
        → (if zero
              then pure true
              else if above
              then adopt_term m >> pure true
              else if below
              then answer_stale m.type m >> pure false
              else pure true)
            r
          ≡ some (go, k)
        → (k ≡ r) ⊎ ((k.state ≡ state_follower) ⊎ ((go ≡ false) × (k.state ≡ r.state)))
    ruled true above below e = inl (ground arith)
    ruled false true below e =
        let (v, j, done, rest) = >>=-eq-some (adopt_term m) _ r e in
        let same : j ≡ k = cc in
        elim (adopt_term-role m r v j done) [
          | inl q ↦ inl (sym same ∙ q)
          | inr q ↦ inr (inl (ap (λ z. z.state) (sym same) ∙ q))
        ]
    ruled false false true e =
        let (v, j, done, rest) = >>=-eq-some (answer_stale m.type m) _ r e in
        let same : j ≡ k = cc in
        let went : go ≡ false = cc in
        inr (
          inr (
            went,
            ap (λ z. z.state) (sym same) ∙ ((answer_stale-SameRole m.type m).at r v j done).role,
          ))
    ruled false false false e = inl (ground arith)

-- A follower stays one.
follower-stays :
    (m : Message) (r : Raft) (u : Done) (s : Raft)
    → r.state ≡ state_follower
    → dispatch m r ≡ some (u, s)
    → s.state ≡ state_follower
unfolding dispatch by_role step_follower
follower-stays m r u s f e = sorted (is_vote m.type || is_pre_vote m.type) r.state f e
  where
    sorted :
        (b : Bool) (k : StateType)
        → k ≡ state_follower
        → (if b then handle_vote_request m else by_role k m) r ≡ some (u, s)
        → s.state ≡ state_follower
    sorted true k q e = ((handle_vote_request-SameRole m).at r u s e).role ∙ f
    sorted false state_follower q e = ((follow-SameRole m.type m).at r u s e).role ∙ f
    sorted false state_pre_candidate q e = cc
    sorted false state_candidate q e = cc
    sorted false state_leader q e = cc

dispatch-IsElected :
    (m : Message) (r : Raft) (u : Done) (s : Raft)
    → r.state ≡ state_candidate
    → s.state ≡ state_leader
    → dispatch m r ≡ some (u, s)
    → IsElected m r
unfolding dispatch by_role step_candidate
dispatch-IsElected m r u s c l e = sorted (is_vote m.type || is_pre_vote m.type) r.state c e
  where
    sorted :
        (b : Bool) (k : StateType)
        → k ≡ state_candidate
        → (if b then handle_vote_request m else by_role k m) r ≡ some (u, s)
        → IsElected m r
    sorted true k q e = let same = ((handle_vote_request-SameRole m).at r u s e).role in cc
    sorted false state_candidate q e = contend-IsElected m.type m r u s refl c l e
    sorted false state_follower q e = cc
    sorted false state_pre_candidate q e = cc
    sorted false state_leader q e = cc

step_peer-IsElected :
    (m : Message) (r : Raft) (u : Done) (s : Raft)
    → r.state ≡ state_candidate
    → s.state ≡ state_leader
    → step_peer m r ≡ some (u, s)
    → IsElected m r
unfolding step_peer
step_peer-IsElected m r u s c l e = leased (has_lease m r) e
  where
    goes_on :
        (go : Bool) (k : Raft)
        → (k ≡ r) ⊎ ((k.state ≡ state_follower) ⊎ ((go ≡ false) × (k.state ≡ r.state)))
        → when go (dispatch m) k ≡ some (u, s)
        → IsElected m r
    goes_on true k (inl q) e =
        dispatch-IsElected m r u s c l (subst (λ z. dispatch m z ≡ some (u, s)) q e)
    goes_on true k (inr (inl f)) e = let stays = follower-stays m k u s f e in cc
    goes_on true k (inr (inr (q, role))) e = cc
    goes_on false k (inl q) e = let same : k ≡ s = cc in cc
    goes_on false k (inr (inl f)) e = let same : k ≡ s = cc in cc
    goes_on false k (inr (inr (q, role))) e = let same : k ≡ s = cc in cc

    leased :
        (b : Bool)
        → (if b then refuse_vote m else (do go ← term_rules m; when go (dispatch m))) r
          ≡ some (u, s)
        → IsElected m r
    leased true e = let same = ((Quiet-SameRole (refuse_vote-Quiet m)).at r u s e).role in cc
    leased false e =
        let (go, k, done, rest) = >>=-eq-some (term_rules m) _ r e in
        goes_on go k (term_rules-role m r go k done) rest

-- If a step makes a candidate a leader, then the message is a vote response, and with its ballot, of
-- which only the first of a node counts, the granted votes are at least a quorum.
pub step-IsElected :
    (m : Message) (r : Raft) (a : Returned) (s : Raft)
    → r.state ≡ state_candidate
    → s.state ≡ state_leader
    → step m r ≡ some (a, s)
    → IsElected m r
unfolding step step_by_type
step-IsElected m r a s c l e = sorted m.type e
  where
    peer : returning (step_peer m) r ≡ some (a, s) → IsElected m r
    peer e =
        let (v, k, done, rest) = >>=-eq-some (step_peer m) _ r e in
        let same : k ≡ s = ground arith in
        step_peer-IsElected m r v k c (ap (λ z. z.state) same ∙ l) done

    sorted : (t : MessageType) → step_by_type t m r ≡ some (a, s) → IsElected m r
    sorted msg_propose e = let same = ((step_propose-Quiet m).at r a s e).state in cc
    sorted msg_read_index e = let same = ((step_read_index-Quiet m).at r a s e).state in cc
    sorted _ e = peer e
