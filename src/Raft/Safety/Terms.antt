-- ===== src/Raft/Safety/Terms.antt =====
-- raft/step.go: the term rules and the answer to a vote request.
use parallax_kv.Base.{
  ℕ, ◌+◌, ◌^◌, ◌<◌, ◌≤◌, ◌≡◌, ◌≢◌, refl, subst, Bool, true, false, not, ◌&&◌, ◌||◌, some, arith,
  if◌then◌else◌, ltb, nat_eq,
}
use parallax_kv.Raft.Types.{
  MessageType, msg_pre_vote, msg_vote, msg_append, msg_heartbeat, msg_install_snapshot, Message,
}
use parallax_kv.Raft.Core.{Raft, Action, Done, ◌>>◌, pure, no_node, send}
use parallax_kv.Raft.Keeps.{Keeps, >>=-eq-some}
use parallax_kv.Raft.Election.{become_follower}
use parallax_kv.Raft.Step.{
  dispatch, by_role, handle_vote_request, grants, term_rules, adopt_term, answer_stale, is_vote,
  is_pre_vote, is_pre_vote_resp,
}
use parallax_kv.Raft.Safety.Quiet.{Quiet, quiet_rules}
use parallax_kv.Raft.Safety.Elections.{
  Quiet-Steady, Advances, Advances-order, Steady-Advances, become_follower-HasTerm,
  become_follower-Advances,
}
use parallax_kv.Raft.Safety.Roles.{by_role-Advances}

-- A vote request that is answered at the candidate's term.
handle_vote_request-Advances :
    (m : Message) (r : Raft) (u : Done) (s : Raft)
    → (is_pre_vote m.type ≡ false → m.term ≤ r.term)
    → handle_vote_request m r ≡ some (u, s)
    → Advances r s
unfolding handle_vote_request grants send
handle_vote_request-Advances m r u s h e = record {
  term = ground arith;
  vote = λ p d. ground arith;
  commits = ground arith;
}

-- What the term rules leave for a message that goes on.
pub record Admitted (m : Message) (r : Raft) : Type 0 where
  pub not_older : r.term ≤ m.term
  pub voting : is_pre_vote m.type ≡ false → is_pre_vote_resp m.type ≡ false → m.term ≤ r.term

pub dispatch-Advances :
    (m : Message) (r : Raft) (u : Done) (s : Raft)
    → r.term + 1 < 2 ^ 64
    → Admitted m r
    → dispatch m r ≡ some (u, s)
    → Advances r s
unfolding dispatch
dispatch-Advances m r u s fits h e = sorted m.type refl e
  where
    sorted :
        (t : MessageType)
        → m.type ≡ t
        → (if is_vote t || is_pre_vote t then handle_vote_request m else by_role r.state m) r
          ≡ some (u, s)
        → Advances r s
    sorted msg_vote p e = handle_vote_request-Advances m r u s (λ q. h.voting q (cc p)) e
    sorted msg_pre_vote p e = handle_vote_request-Advances m r u s (λ q. h.voting q (cc p)) e
    sorted _ p e = by_role-Advances r.state m r u s fits h.not_older e

answer_stale-Quiet : (t : MessageType) (m : Message) → Keeps Quiet (answer_stale t m)
unfolding answer_stale
answer_stale-Quiet msg_append m = search quiet_rules depth 10
answer_stale-Quiet msg_heartbeat m = search quiet_rules depth 10
answer_stale-Quiet msg_install_snapshot m = search quiet_rules depth 10
answer_stale-Quiet msg_pre_vote m = search quiet_rules depth 10
answer_stale-Quiet _ m = search quiet_rules depth 10

adopt_term-Admitted :
    (m : Message) (r : Raft) (u : Done) (s : Raft)
    → r.term < m.term
    → adopt_term m r ≡ some (u, s)
    → Advances r s × Admitted m s
unfolding adopt_term
adopt_term-Admitted m r u s lt e =
    adopted (is_pre_vote m.type) (is_pre_vote_resp m.type) refl refl e
  where
    stays :
        r ≡ s
        → (is_pre_vote m.type ≡ false → is_pre_vote_resp m.type ≡ false → m.term ≤ s.term)
        → Advances r s × Admitted m s
    stays p h = (
      Steady-Advances (record { term = ground arith; vote = ground arith; commits = ground arith }),
      record { not_older = ground arith; voting = h },
    )

    follows : (l : ℕ) → become_follower m.term l r ≡ some (u, s) → Advances r s × Admitted m s
    follows l e =
        let (t, v, c, st) = become_follower-HasTerm m.term l r u s e in
        (
          become_follower-Advances m.term l r u s (omega arith) e,
          record { not_older = omega arith; voting = λ p q. omega arith },
        )

    granted :
        (b : Bool) (l : ℕ)
        → (is_pre_vote_resp m.type ≡ false → b ≡ false)
        → (if b then pure tt else become_follower m.term l) r ≡ some (u, s)
        → Advances r s × Admitted m s
    granted true l h e = stays (cc e) (λ p q. absurd (cc (h q)))
    granted false l h e = follows l e

    adopted :
        (a b : Bool)
        → is_pre_vote m.type ≡ a
        → is_pre_vote_resp m.type ≡ b
        → (if a || b && not m.reject
              then pure tt
              else become_follower m.term (if is_vote m.type then no_node else m.from))
            r
          ≡ some (u, s)
        → Advances r s × Admitted m s
    adopted true b p q e = stays (cc e) (λ x y. absurd (cc x))
    adopted false b p q e = granted (b && not m.reject) _ (λ x. ground arith) e

-- The term rules, for a message that carries a term.
pub term_rules-Admitted :
    (m : Message) (r : Raft) (go : Bool) (s : Raft)
    → m.term ≢ 0
    → term_rules m r ≡ some (go, s)
    → Advances r s × (go ≡ true → Admitted m s)
unfolding term_rules
term_rules-Admitted m r go s stamped e =
    ruled (ltb r.term m.term) (ltb m.term r.term) refl refl (ground arith)
  where
    compared : Bool → Bool → Action Bool
    compared above below =
        if above
        then adopt_term m >> pure true
        else if below
        then answer_stale m.type m >> pure false
        else pure true

    ruled :
        (above below : Bool)
        → ltb r.term m.term ≡ above
        → ltb m.term r.term ≡ below
        → compared above below r ≡ some (go, s)
        → Advances r s × (go ≡ true → Admitted m s)
    ruled true below p q e =
        let (v, k, done, rest) = >>=-eq-some (adopt_term m) _ r e in
        let (ad, h) = adopt_term-Admitted m r v k (ground arith) done in
        let same : k ≡ s = cc in (subst (Advances r) same ad, λ g. subst (Admitted m) same h)
    ruled false true p q e =
        let (v, k, done, rest) = >>=-eq-some (answer_stale m.type m) _ r e in
        let same : k ≡ s = cc in
        (
          subst (Advances r) same
              (Steady-Advances ((Quiet-Steady (answer_stale-Quiet m.type m)).at r v k done)),
          λ g. absurd (cc),
        )
    ruled false false p q e =
        let same : r ≡ s = cc in
        (
          subst (Advances r) same (Advances-order.reflexive r),
          λ g.
              subst (Admitted m) same
                (record { not_older = ground arith; voting = λ x y. ground arith }),
        )
