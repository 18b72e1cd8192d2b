-- ===== src/Raft/Safety/Votes.antt =====
-- raft/step.go, the vote condition: what a granted vote has recorded.
use parallax_kv.Base.{
  ℕ, ◌≡◌, ◌≢◌, refl, sym, subst, ap, ◌∙◌, Bool, true, false, not, ◌&&◌, ◌||◌, some, [], ◌∷◌, ◌++◌,
  arith, if◌then◌else◌, ltb, ◌==◌, nat_eq, snoc-injective, snoc-ne,
}
use parallax_kv.Raft.Types.{
  MessageType, msg_propose, msg_read_index, msg_pre_vote, msg_vote, msg_append, msg_heartbeat,
  msg_install_snapshot, Message,
}
use parallax_kv.Raft.Log
use parallax_kv.Raft.Core.{
  Raft, Action, Done, ◌>>=◌, ◌>>◌, pure, modify, reads, when, send, stamp_term,
}
use parallax_kv.Raft.Keeps.{>>=-eq-some}
use parallax_kv.Raft.Election.{become_follower}
use parallax_kv.Raft.Step.{
  step, step_by_type, step_peer, dispatch, handle_vote_request, grants, term_rules, adopt_term,
  answer_stale, refuse_vote, is_vote, is_pre_vote, has_lease, is_pre_vote_resp, by_role, Returned,
}
use parallax_kv.Raft.Safety.Elections.{become_follower-HasTerm, become_follower-msgs}

-- The step sent one message, and it does not reject.
pub record Granted (r s : Raft) : Type 0 where
  pub reply : Message
  pub sent : s.msgs ≡ r.msgs ++ reply ∷ []
  pub granted : reply.reject ≡ false

-- The vote is in the state.
pub record VotesFor (m : Message) (s : Raft) : Type 0 where
  pub vote : s.vote ≡ m.from
  pub term : s.term ≡ m.term

-- A message that rejects is no grant.
reject-Granted :
    (out : Message) (r : Raft) (u : Done) (s : Raft)
    → out.reject ≡ true
    → send out r ≡ some (u, s)
    → ¬ Granted r s
unfolding send
reject-Granted out r u s refused e g =
    let shown : s.msgs
        ≡ r.msgs
          ++ record out {
            from = r.id;
            term = if out.term == 0 then stamp_term out.type r.term else out.term;
          }
            ∷ [] =
      cc in
    let same = snoc-injective r.msgs _ _ (sym shown ∙ g.sent) in let granted = g.granted in cc

balloted :
    (m out : Message) (pre b : Bool) (r : Raft) (u : Done) (s : Raft)
    → pre ≡ false
    → out.reject ≡ not b
    → Granted r s
    → (when (not pre && b) (modify (λ k. record k { vote = m.from; election_elapsed = 0 }))
          >> send out)
        r
      ≡ some (u, s)
    → (s.vote ≡ m.from) × (s.term ≡ r.term)
unfolding send
balloted m out true b r u s f p g e = cc
balloted m out false true r u s f p g e = (ground arith, ground arith)
balloted m out false false r u s f p g e = absurd (reject-Granted out r u s p e g)

answered-VotesFor :
    (m : Message) (r : Raft) (u : Done) (s : Raft)
    → is_pre_vote m.type ≡ false
    → r.term ≡ m.term
    → Granted r s
    → handle_vote_request m r ≡ some (u, s)
    → VotesFor m s
unfolding handle_vote_request
answered-VotesFor m r u s p q g e =
    let (up, k, ok, rest) =
      >>=-eq-some (reads (λ r. Log.is_up_to_date r.raft_log m.log_index m.log_term)) _ r e in
    let same : k ≡ r = ground arith in
    let (vote, term) =
      balloted m _ (is_pre_vote m.type) (grants m up k) k u s p refl
        (record { reply = g.reply; sent = ground arith; granted = g.granted }) rest in
    record { vote = vote; term = cc }

dispatched-VotesFor :
    (m : Message) (r : Raft) (u : Done) (s : Raft)
    → m.type ≡ msg_vote
    → r.term ≡ m.term
    → Granted r s
    → dispatch m r ≡ some (u, s)
    → VotesFor m s
unfolding dispatch
dispatched-VotesFor m r u s p q g e = sorted (is_vote m.type) (is_pre_vote m.type) (ap is_vote p) e
  where
    sorted :
        (x y : Bool)
        → x ≡ true
        → (if x || y then handle_vote_request m else by_role r.state m) r ≡ some (u, s)
        → VotesFor m s
    sorted true y _ e = answered-VotesFor m r u s (ap is_pre_vote p) q g e
    sorted false y h e = cc

answer_stale-vote :
    (t : MessageType) (m : Message) (r : Raft) (u : Done) (k : Raft)
    → t ≡ msg_vote
    → answer_stale t m r ≡ some (u, k)
    → k ≡ r
unfolding answer_stale
answer_stale-vote msg_vote m r u k p e = cc
answer_stale-vote msg_append m r u k p e = ground arith
answer_stale-vote msg_heartbeat m r u k p e = ground arith
answer_stale-vote msg_install_snapshot m r u k p e = ground arith
answer_stale-vote msg_pre_vote m r u k p e = ground arith
answer_stale-vote _ m r u k p e = cc

-- The term rules send nothing for a vote request, and let it through at its own term.
ruled_vote :
    (m : Message) (r : Raft) (go : Bool) (k : Raft)
    → m.type ≡ msg_vote
    → m.term ≢ 0
    → term_rules m r ≡ some (go, k)
    → (k.msgs ≡ r.msgs) × (go ≡ true → k.term ≡ m.term)
unfolding term_rules adopt_term
ruled_vote m r go k p stamped e =
    ruled (ltb r.term m.term) (ltb m.term r.term) refl refl (ground arith)
  where
    Through : Type 0
    Through = (k.msgs ≡ r.msgs) × (go ≡ true → k.term ≡ m.term)

    adopted :
        (x : Bool) (l : ℕ) (u : Done)
        → x ≡ false
        → (if x then pure tt else become_follower m.term l) r ≡ some (u, k)
        → Through
    adopted true l u h e = cc
    adopted false l u h e =
        (become_follower-msgs m.term l r u k e, λ g. (become_follower-HasTerm m.term l r u k e).0)

    compared : Bool → Bool → Action Bool
    compared above below =
        if above
        then adopt_term m >> pure true
        else if below
        then answer_stale m.type m >> pure false
        else pure true

    ruled :
        (above below : Bool)
        → ltb r.term m.term ≡ above
        → ltb m.term r.term ≡ below
        → compared above below r ≡ some (go, k)
        → Through
    ruled true below a b e =
        let (v, k', done, rest) = >>=-eq-some (adopt_term m) _ r e in
        let same : k' ≡ k = cc in
        adopted _ _ v (ap (λ t. is_pre_vote t || is_pre_vote_resp t && not m.reject) p)
          (subst (λ z. adopt_term m r ≡ some (v, z)) same done)
    ruled false true a b e =
        let (v, k', done, rest) = >>=-eq-some (answer_stale m.type m) _ r e in
        let same : k' ≡ r = answer_stale-vote m.type m r v k' p done in (ground arith, λ g. cc)
    ruled false false a b e = let same : r ≡ k = cc in (ground arith, λ g. ground arith)

-- If a step with a vote request, which carries a term, sends exactly one message and this does
-- not reject, then the node's vote is the candidate and its term is that of the request.
pub vote-VotesFor :
    (m : Message) (r : Raft) (a : Returned) (s : Raft)
    → m.type ≡ msg_vote
    → m.term ≢ 0
    → step m r ≡ some (a, s)
    → Granted r s
    → VotesFor m s
unfolding step step_by_type step_peer refuse_vote
vote-VotesFor m r a s p stamped e g = sorted m.type p e
  where
    goes_on :
        (go : Bool) (k : Raft) (u : Done)
        → k.msgs ≡ r.msgs
        → (go ≡ true → k.term ≡ m.term)
        → when go (dispatch m) k ≡ some (u, s)
        → VotesFor m s
    goes_on true k u q h e =
        dispatched-VotesFor m k u s p (h refl)
          (record { reply = g.reply; sent = ground arith; granted = g.granted }) e
    goes_on false k u q h e =
        let same : k ≡ s = cc in
        absurd (snoc-ne r.msgs g.reply (sym q ∙ ap (λ z. z.msgs) same ∙ g.sent))

    leased :
        (b : Bool) (u : Done)
        → (if b then refuse_vote m else (do go ← term_rules m; when go (dispatch m))) r
          ≡ some (u, s)
        → VotesFor m s
    leased true u e = absurd (reject-Granted _ r u s refl e g)
    leased false u e =
        let (go, k, done, rest) = >>=-eq-some (term_rules m) _ r e in
        let (q, h) = ruled_vote m r go k p stamped done in goes_on go k u q h rest

    sorted : (t : MessageType) → t ≡ msg_vote → step_by_type t m r ≡ some (a, s) → VotesFor m s
    sorted msg_vote q e =
        let (v, k, done, rest) = >>=-eq-some (step_peer m) _ r e in
        let same : k ≡ s = ground arith in
        leased (has_lease m r) v (subst (λ z. step_peer m r ≡ some (v, z)) same done)
    sorted msg_propose q e = cc
    sorted msg_read_index q e = cc
    sorted _ q e = cc
