-- ===== src/Raft/Safety/Runs.antt =====
-- raft/node.go: any sequence of calls that a driver makes of one node, and of its writes to the
-- store that the node reads.
use parallax_kv.Base.{
  ◌+◌, ◌^◌, ◌<◌, ◌≡◌, ◌≢◌, refl, sym, subst, ◌∙◌, Option, none, some, List, arith,
}
use parallax_kv.Base.Panics.{◌>>=◌}
use parallax_kv.Base.Returns.{bind-eq-some}
use parallax_kv.Raft.Types.{msg_vote, Message, Ready, Entry, Snapshot}
use parallax_kv.Raft.LogStorage.{LogStorage}
use parallax_kv.Raft.Log
use parallax_kv.Raft.Log.{RaftLog}
use parallax_kv.Raft.Core.{Raft, no_node}
use parallax_kv.Raft.Step
use parallax_kv.Raft.Step.{Returned}
use parallax_kv.Raft.Election
use parallax_kv.Raft.Node.{Node, new_raft, acknowledge, stabilise, stabilise_snapshot, mark_applied}
use parallax_kv.Raft.Node
use parallax_kv.Raft.Safety.Elections.{Advances, Advances-order}
use parallax_kv.Raft.Safety.Steps.{IsWire, step-Advances, tick-Advances}
use parallax_kv.Raft.Safety.Votes.{Granted, VotesFor, vote-VotesFor}

-- The log operations of Advance leave the commit index alone.
stabilise-committed :
    (l : RaftLog) (es : List Entry) (l' : RaftLog)
    → stabilise l es ≡ some l'
    → l'.committed ≡ l.committed
unfolding stabilise Log.stable_to
stabilise-committed l es l' e = ground arith

stabilise_snapshot-committed :
    (l : RaftLog) (s : Option Snapshot) → (stabilise_snapshot l s).committed ≡ l.committed
unfolding stabilise_snapshot Log.stable_snap_to
stabilise_snapshot-committed l none = refl
stabilise_snapshot-committed l (some s) = refl

mark_applied-committed :
    (l : RaftLog) (es : List Entry) (l' : RaftLog)
    → mark_applied l es ≡ some l'
    → l'.committed ≡ l.committed
unfolding mark_applied Log.applied_to
mark_applied-committed l es l' e = ground arith

acknowledge-Advances : (r : Raft) (rd : Ready) (s : Raft) → acknowledge r rd ≡ some s → Advances r s
unfolding acknowledge
acknowledge-Advances r rd s e =
    let (l, done, rest) = bind-eq-some (stabilise r.raft_log rd.entries) _ e in
    let (l', done', rest') =
      bind-eq-some (mark_applied (stabilise_snapshot l rd.snapshot) rd.committed_entries) _ rest in
    let p = stabilise-committed r.raft_log rd.entries l done in
    let q = stabilise_snapshot-committed l rd.snapshot in
    let o = mark_applied-committed _ rd.committed_entries l' done' in
    record { term = ground arith; vote = λ x y. ground arith; commits = ground arith }

-- The driver has written to its store, which answers in this way from now on.
abbrev pub with_storage : Node → LogStorage → Node
with_storage n st = record n {
  raft = record n.raft { raft_log = record n.raft.raft_log { storage = st } };
}

-- The calls that a driver makes of a node, none of which panics, and its writes to the store that
-- the node reads, between any two of them.
pub data Runs : Node → Node → Type 0 where
  halted : {n : Node} → Runs n n
  stepped :
      {n k t : Node} (m : Message) (a : Returned)
      → IsWire m
      → Node.step n m ≡ some (a, k)
      → Runs k t
      → Runs n t
  ticked : {n k t : Node} → n.raft.term + 1 < 2 ^ 64 → Node.tick n ≡ some k → Runs k t → Runs n t
  polled : {n k t : Node} (rd : Ready) → Node.ready n ≡ some (rd, k) → Runs k t → Runs n t
  advanced : {n k t : Node} → Node.advance n ≡ some k → Runs k t → Runs n t
  persisted : {n t : Node} (st : LogStorage) → Runs (with_storage n st) t → Runs n t

node_step-Advances :
    (n k : Node) (m : Message) (a : Returned)
    → IsWire m
    → Node.step n m ≡ some (a, k)
    → Advances n.raft k.raft
unfolding Node.step
node_step-Advances n k m a w e =
    let ((a', r), done, rest) = bind-eq-some (Step.step m n.raft) _ e in
    let same : k.raft ≡ r = ground arith in
    subst (Advances n.raft) (sym same) (step-Advances m n.raft a' r w done)

node_tick-Advances :
    (n k : Node) → n.raft.term + 1 < 2 ^ 64 → Node.tick n ≡ some k → Advances n.raft k.raft
unfolding Node.tick
node_tick-Advances n k fits e =
    let ((u, r), done, rest) = bind-eq-some (Election.tick n.raft) _ e in
    let same : k.raft ≡ r = ground arith in
    subst (Advances n.raft) (sym same) (tick-Advances n.raft u r fits done)

node_ready-Advances :
    (n k : Node) (rd : Ready) → Node.ready n ≡ some (rd, k) → Advances n.raft k.raft
unfolding Node.ready
node_ready-Advances n k rd e =
    let (x, done, rest) = bind-eq-some (Node.ready_of n.raft) _ e in
    let same : n.raft ≡ k.raft = ground arith in
    subst (Advances n.raft) same (Advances-order.reflexive n.raft)

node_advance-Advances : (n k : Node) → Node.advance n ≡ some k → Advances n.raft k.raft
unfolding Node.advance
node_advance-Advances n k e = pending n.pending_ready e
  where
    pending :
        (o : Option Ready)
        → ◌≡◌ {A = Option Node}
            (elim o [
              | none ↦ some n
              | some rd ↦ do
                r ← acknowledge n.raft rd
                some (record { raft = r; pending_ready = none })
            ])
            (some k)
        → Advances n.raft k.raft
    pending none e =
        let same : n.raft ≡ k.raft = ground arith in
        subst (Advances n.raft) same (Advances-order.reflexive n.raft)
    pending (some rd) e =
        let (r, done, rest) = bind-eq-some (acknowledge n.raft rd) _ e in
        let same : r ≡ k.raft = ground arith in
        subst (Advances n.raft) same (acknowledge-Advances n.raft rd r done)

with_storage-Advances : (n : Node) (st : LogStorage) → Advances n.raft (with_storage n st).raft
with_storage-Advances n st = record {
  term = omega arith;
  vote = λ x y. refl;
  commits = omega arith;
}

-- Over any sequence of calls of Step, Tick, Ready and Advance that do not panic, and of changes of
-- the log storage that the node reads, which may answer in any way after each, the term of a
-- node does not fall, a vote that it has cast stands while the term is the same, and its commit
-- index does not fall. The messages of peers carry a term, and the terms stay below the largest
-- one.
pub Runs-Advances : (n t : Node) → Runs n t → Advances n.raft t.raft
Runs-Advances n t halted = Advances-order.reflexive n.raft
Runs-Advances n t (stepped {k = k} m a w e rest) =
    Advances-order.transitive n.raft k.raft t.raft (node_step-Advances n k m a w e)
      (Runs-Advances k t rest)
Runs-Advances n t (ticked {k = k} fits e rest) =
    Advances-order.transitive n.raft k.raft t.raft (node_tick-Advances n k fits e)
      (Runs-Advances k t rest)
Runs-Advances n t (polled {k = k} rd e rest) =
    Advances-order.transitive n.raft k.raft t.raft (node_ready-Advances n k rd e)
      (Runs-Advances k t rest)
Runs-Advances n t (advanced {k = k} e rest) =
    Advances-order.transitive n.raft k.raft t.raft (node_advance-Advances n k e)
      (Runs-Advances k t rest)
Runs-Advances n t (persisted st rest) =
    let k = with_storage n st in
    Advances-order.transitive n.raft k.raft t.raft (with_storage-Advances n st)
      (Runs-Advances k t rest)

node_vote-VotesFor :
    (m : Message) (n k : Node) (a : Returned)
    → m.type ≡ msg_vote
    → m.term ≢ 0
    → Node.step n m ≡ some (a, k)
    → Granted n.raft k.raft
    → VotesFor m k.raft
unfolding Node.step
node_vote-VotesFor m n k a p stamped e g =
    let ((a', r), done, rest) = bind-eq-some (Step.step m n.raft) _ e in
    let same : r ≡ k.raft = ground arith in
    vote-VotesFor m n.raft a' k.raft p stamped
      (subst (λ z. Step.step m n.raft ≡ some (a', z)) same done) g

-- A node that answers a vote request of a candidate with a grant, then has any sequence of calls
-- of Step, Tick, Ready and Advance that do not panic, between which the log storage that it reads
-- may change in any way, and answers a vote request of the same term with a grant again, has granted its vote to the same candidate both times. The messages
-- of peers carry a term, the terms stay below the largest one, and the candidate's ID is not
-- None.
pub grants_once :
    (m m' : Message) (n k k' t : Node) (a a' : Returned)
    → m.type ≡ msg_vote
    → m'.type ≡ msg_vote
    → m.term ≢ 0
    → m.term + 1 < 2 ^ 64
    → m'.term ≡ m.term
    → m.from ≢ no_node
    → Node.step n m ≡ some (a, k)
    → Granted n.raft k.raft
    → Runs k k'
    → Node.step k' m' ≡ some (a', t)
    → Granted k'.raft t.raft
    → m.from ≡ m'.from
grants_once m m' n k k' t a a' p p' stamped below same from e g run e' g' =
    let v = node_vote-VotesFor m n k a p stamped e g in
    let stamped' : m'.term ≢ 0 = λ z. stamped (sym same ∙ z) in
    let v' = node_vote-VotesFor m' k' t a' p' stamped' e' g' in
    let wire : IsWire m' = record { stamped = λ _. stamped'; below = omega arith } in
    let onward =
      Advances-order.transitive k.raft k'.raft t.raft (Runs-Advances k k' run)
        (node_step-Advances k' t m' a' wire e') in
    sym v.vote
    ∙ sym (onward.vote (v.term ∙ sym same ∙ sym v'.term) (λ z. from (sym v.vote ∙ z)))
    ∙ v'.vote
