-- ===== src/Raft/Safety/Lease.antt =====
-- raft/step.go, hasLease: a vote request that meets a leader's lease.
use parallax_kv.Base.{
  ◌<◌, ◌≡◌, ◌≢◌, ◌⊎◌, inl, inr, refl, ap, ◌∙◌, true, ◌||◌, none, some, [], ◌∷◌, ◌++◌, arith,
  if◌then◌else◌, ◌==◌, nat_eq,
}
use parallax_kv.Raft.Types.{
  MessageType, msg_pre_vote, msg_vote, msg_vote_resp, msg_pre_vote_resp, Message, blank,
}
use parallax_kv.Raft.Core.{Raft, no_node, Action, Done, send, stamp_term}
use parallax_kv.Raft.Step.{
  step, step_by_type, step_peer, has_lease, refuse_vote, is_vote, is_pre_vote, returning,
  vote_resp_type,
}

-- The answer to each of the two requests.
abbrev pub Answers : Message → Message → Type 0
Answers m reply =
    ((m.type ≡ msg_vote) × (reply.type ≡ msg_vote_resp))
    ⊎ ((m.type ≡ msg_pre_vote) × (reply.type ≡ msg_pre_vote_resp))

-- One more message, a rejection to the sender, and nothing else is changed.
pub record IsRefusal (m : Message) (r s : Raft) : Type 0 where
  pub reply : Message
  pub answers : Answers m reply
  pub rejects : reply.reject ≡ true
  pub addressed : reply.to ≡ m.from
  pub unchanged : s ≡ record r { msgs = r.msgs ++ reply ∷ [] }

step_peer-lease : (m : Message) (r : Raft) → has_lease m r ≡ true → step_peer m r ≡ refuse_vote m r
unfolding step_peer
step_peer-lease m r h = rw h refl

step_by_type-peer :
    (t : MessageType) (m : Message)
    → (is_vote t || is_pre_vote t) ≡ true
    → step_by_type t m ≡ returning (step_peer m)
unfolding step_by_type
step_by_type-peer msg_vote m h = refl
step_by_type-peer msg_pre_vote m h = refl
step_by_type-peer _ m h = cc

lease-voting :
    (m : Message) (r : Raft) → has_lease m r ≡ true → (is_vote m.type || is_pre_vote m.type) ≡ true
unfolding has_lease
lease-voting m r h = ground arith

returned :
    (act : Action Done) (r : Raft) {s : Raft}
    → act r ≡ some (tt, s)
    → returning act r ≡ some (none, s)
returned act r h = ground (arith, h)

leased :
    (m : Message) (r : Raft)
    → (m.type ≡ msg_vote) ⊎ (m.type ≡ msg_pre_vote)
    → r.lead ≢ no_node
    → r.vote ≢ m.from
    → r.election_elapsed < r.cfg.election_ticks
    → has_lease m r ≡ true
unfolding has_lease
leased m r (inl vote) lead other young = rw vote (ground arith)
leased m r (inr pre) lead other young = rw pre (ground arith)

answering :
    (t : MessageType)
    → (t ≡ msg_vote) ⊎ (t ≡ msg_pre_vote)
    → ((t ≡ msg_vote) × (vote_resp_type t ≡ msg_vote_resp))
      ⊎ ((t ≡ msg_pre_vote) × (vote_resp_type t ≡ msg_pre_vote_resp))
answering t (inl vote) = inl (vote, rw vote refl)
answering t (inr pre) = inr (pre, rw pre refl)

-- While a node knows a leader and its election timer has not run for the election timeout, a step
-- with a vote request or a pre-vote request of a node that it has not voted for, of whatever term
-- and with whatever log, returns no error, sends the candidate one rejection of the kind of its
-- request, and changes nothing else of the node: its term, its vote, its leader and its timer stay.
pub lease-IsRefusal :
    (m : Message) (r : Raft)
    → (m.type ≡ msg_vote) ⊎ (m.type ≡ msg_pre_vote)
    → r.lead ≢ no_node
    → r.vote ≢ m.from
    → r.election_elapsed < r.cfg.election_ticks
    → (s : Raft) × (step m r ≡ some (none, s)) × IsRefusal m r s
unfolding step refuse_vote send
lease-IsRefusal m r kind lead other young =
    let h = leased m r kind lead other young in
    let asked = step_by_type-peer m.type m (lease-voting m r h) in
    let refused = step_peer-lease m r h in
    let out : Message = record (blank (vote_resp_type m.type)) {
      from = r.id;
      to = m.from;
      reject = true;
      term =
          (let t = if is_pre_vote m.type then m.term else r.term in
            if t == 0 then stamp_term (vote_resp_type m.type) r.term else t);
    } in
    (
      record r { msgs = r.msgs ++ out ∷ [] },
      ap (λ f. f r) asked ∙ returned (step_peer m) r refused,
      record {
        reply = out;
        answers = answering m.type kind;
        rejects = refl;
        addressed = refl;
        unchanged = refl;
      },
    )
