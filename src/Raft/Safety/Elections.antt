-- ===== src/Raft/Safety/Elections.antt =====
-- raft/raft.go: what role transitions and campaigns do to the term and to the vote.
use parallax_kv.Base.{
  ℕ, ◌+◌, ◌^◌, ◌<◌, ◌≤◌, ◌≡◌, ◌≢◌, refl, Bool, some, [], ◌∷◌, arith, if◌then◌else◌, add64, ◌==◌,
  nat_eq,
}
use parallax_kv.Raft.Types.{state_follower, state_leader}
use parallax_kv.Raft.Core.{
  Raft, Action, Done, no_node, reset, record_vote, reset_randomized_election_timeout,
}
use parallax_kv.Raft.Keeps.{Keeps, IsPreorder, >>=-eq-some}
use parallax_kv.Raft.Reads.{is_leader}
use parallax_kv.Raft.Election.{
  become_follower, become_candidate, become_leader, panic_if, is_follower, noop,
}
use parallax_kv.Raft.Safety.Quiet.{Quiet, append_entry-Quiet}

-- Term and vote are as before, and the commit index is not lower.
pub record Steady (r s : Raft) : Type 0 where
  pub term : s.term ≡ r.term
  pub vote : s.vote ≡ r.vote
  pub commits : r.raft_log.committed ≤ s.raft_log.committed

pub Steady-order : IsPreorder Steady
Steady-order = record { reflexive = λ r. ground arith; transitive = λ r s t p q. ground arith }

pub Quiet-Steady : {A : Type 0} {m : Action A} → Keeps Quiet m → Keeps Steady m
Quiet-Steady q = record {
  at = λ r a s e.
      let h : Quiet r s = q.at r a s e in
      record { term = h.term; vote = h.vote; commits = h.commits };
}

-- What a node may do: its term grows, or the vote that it cast in the term stands.
pub record Advances (r s : Raft) : Type 0 where
  pub term : r.term ≤ s.term
  pub vote : r.term ≡ s.term → r.vote ≢ no_node → s.vote ≡ r.vote
  pub commits : r.raft_log.committed ≤ s.raft_log.committed

pub Advances-order : IsPreorder Advances
Advances-order = record {
  reflexive = λ r. record { term = omega arith; vote = λ p h. refl; commits = omega arith };
  transitive = λ r s t p q. record {
    term = omega (arith, p.term, q.term);
    vote = λ e h. ground (arith, p.term, q.term, p.vote, q.vote);
    commits = omega (arith, p.commits, q.commits);
  };
}

pub Steady-Advances : {r s : Raft} → Steady r s → Advances r s
Steady-Advances h = record {
  term = omega (arith, h.term);
  vote = λ p d. h.vote;
  commits = h.commits;
}

-- reset and becomeFollower: the term that was asked for, and the old vote only in the same term.
pub record HasTerm (t : ℕ) (r s : Raft) : Type 0 where
  pub term : s.term ≡ t
  pub vote : s.vote ≡ (if r.term == t then r.vote else no_node)
  pub commits : s.raft_log.committed ≡ r.raft_log.committed
  pub state : s.state ≡ r.state
  pub id : s.id ≡ r.id
  pub msgs : s.msgs ≡ r.msgs

pub reset-HasTerm : (t : ℕ) → Keeps (HasTerm t) (reset t)
unfolding reset reset_randomized_election_timeout
reset-HasTerm t = record { at = λ r u s e. ground arith }

pub become_follower-HasTerm :
    (t l : ℕ) (r : Raft) (u : Done) (s : Raft)
    → become_follower t l r ≡ some (u, s)
    → (s.term ≡ t)
      × (s.vote ≡ (if r.term == t then r.vote else no_node))
      × (s.raft_log.committed ≡ r.raft_log.committed)
      × (s.state ≡ state_follower)
unfolding become_follower
become_follower-HasTerm t l r u s e =
    let (v, m, done, rest) = >>=-eq-some (reset t) _ r e in
    let h : HasTerm t r m = (reset-HasTerm t).at r v m done in
    (ground (arith, h.term), ground (arith, h.vote), ground (arith, h.commits), ground arith)

pub become_follower-msgs :
    (t l : ℕ) (r : Raft) (u : Done) (s : Raft)
    → become_follower t l r ≡ some (u, s)
    → s.msgs ≡ r.msgs
unfolding become_follower
become_follower-msgs t l r u s e =
    let (v, m, done, rest) = >>=-eq-some (reset t) _ r e in
    let h : HasTerm t r m = (reset-HasTerm t).at r v m done in ground (arith, h.msgs)

-- The same term again keeps the vote.
pub become_follower-Steady :
    (l : ℕ) (r : Raft) (u : Done) (s : Raft) → become_follower r.term l r ≡ some (u, s) → Steady r s
become_follower-Steady l r u s e =
    let (t, v, c, st) = become_follower-HasTerm r.term l r u s e in
    record { term = t; vote = ground arith; commits = omega arith }

pub become_follower-Advances :
    (t l : ℕ) (r : Raft) (u : Done) (s : Raft)
    → r.term ≤ t
    → become_follower t l r ≡ some (u, s)
    → Advances r s
become_follower-Advances t l r u s h e =
    let (et, ev, ec, st) = become_follower-HasTerm t l r u s e in
    record { term = omega arith; vote = λ p d. ground arith; commits = omega arith }

pub become_candidate-Advances :
    (r : Raft) (u : Done) (s : Raft)
    → r.term + 1 < 2 ^ 64
    → become_candidate r ≡ some (u, s)
    → (s.term ≡ r.term + 1) × Advances r s
unfolding become_candidate
become_candidate-Advances r u s fits e =
    let (v0, r0, ok0, rest0) = >>=-eq-some (panic_if (λ k. is_leader k.state)) _ r e in
    let same : r0 ≡ r = ground arith in
    let (v, m, done, rest) = >>=-eq-some (reset (add64 r0.term 1)) _ r0 rest0 in
    let h : HasTerm (add64 r0.term 1) r0 m = (reset-HasTerm (add64 r0.term 1)).at r0 v m done in
    let term : s.term ≡ r.term + 1 = ground (arith, h.term) in
    let commits : s.raft_log.committed ≡ r.raft_log.committed = ground (arith, h.commits) in
    (
      term,
      record {
        term = omega (arith, term);
        vote = λ p d. absurd (omega (arith, term));
        commits = omega (arith, commits);
      },
    )

pub become_leader-Steady : Keeps Steady become_leader
unfolding become_leader
become_leader-Steady = record {
  at = λ r u s e.
      let (v0, r0, ok0, rest0) = >>=-eq-some (panic_if (λ k. is_follower k.state)) _ r e in
      let same : r0 ≡ r = ground arith in
      let (v, m, done, rest) = >>=-eq-some (reset r0.term) _ r0 rest0 in
      let h : HasTerm r0.term r0 m = (reset-HasTerm r0.term).at r0 v m done in
      let q : Quiet (record m { lead = m.id; state = state_leader }) s =
        (append_entry-Quiet (noop ∷ [])).at _ u s rest in
      record {
        term = ground (arith, h.term, q.term);
        vote = ground (arith, h.vote, q.vote);
        commits = ground (arith, h.commits, q.commits);
      };
}

pub record_vote-Steady : (id : ℕ) (g : Bool) → Keeps Steady (record_vote id g)
unfolding record_vote
record_vote-Steady id g = record { at = λ r u s e. ground arith }
