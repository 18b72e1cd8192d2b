-- ===== src/Raft/Node/Restart.antt =====
-- raft/raft.go, newRaft: what a restarted node has from its storage.
use parallax_kv.Base.{
  ℕ, ◌≤◌, ◌≡◌, refl, ap, ◌∙◌, ok-injective, subst, Bool, true, false, Option, none, some, Outcome,
  ok, err, arith, ltb, if◌then◌else◌, nat_eq,
}
use parallax_kv.Base.Returns.{bind-eq-some}
use parallax_kv.Raft.Types.{HardState, state_follower}
use parallax_kv.Raft.LogStorage.{StorageError, LogStorage}
use parallax_kv.Raft.Config.{Config, ConfigError, validate}
use parallax_kv.Raft.Log
use parallax_kv.Raft.Log.{RaftLog}
use parallax_kv.Raft.Core.{Raft, no_node}
use parallax_kv.Raft.Election.{become_follower}
use mathlib.Core.Option.{some-injective}
use parallax_kv.Base.Panics.{◌>>=◌}
use parallax_kv.Raft.Node.{
  Node, NodeError, bad_config, recovered, start, from_log, or_panic, new_raft, made, new_node,
}
use parallax_kv.Raft.Safety.Elections.{become_follower-HasTerm}

-- What a node has of a hard state.
pub record Remembers (hs : HardState) (r : Raft) : Type 0 where
  pub term : r.term ≡ hs.term
  pub vote : r.vote ≡ hs.vote
  pub commits : hs.commit ≤ r.raft_log.committed
  pub state : r.state ≡ state_follower

raised :
    (b : Bool) (l l' : RaftLog) (c : ℕ)
    → ltb l.committed c ≡ b
    → ◌≡◌ {A = Option RaftLog} (if b then Log.commit_to l c else some l) (some l')
    → c ≤ l'.committed
unfolding Log.commit_to
raised true l l' c p e = ground arith
raised false l l' c p e = ground arith

start-Remembers :
    (cfg : Config) (l : RaftLog) (hs : HardState) (r : Raft)
    → start cfg l hs ≡ some r
    → Remembers hs r
unfolding start recovered
start-Remembers cfg l hs r e =
    let (l', done, rest) =
      bind-eq-some (if ltb l.committed hs.commit then Log.commit_to l hs.commit else some l) _ e in
    let ((u, s), followed, rest') =
      bind-eq-some (become_follower hs.term no_node (recovered cfg l' hs)) _ rest in
    let (t, v, c, st) =
      become_follower-HasTerm hs.term no_node (recovered cfg l' hs) u s followed in
    let le = raised (ltb l.committed hs.commit) l l' hs.commit refl done in
    let same : s ≡ r = cc in
    let term : r.term ≡ hs.term = cc in
    let vote : r.vote ≡ hs.vote = ground arith in
    let state : r.state ≡ state_follower = cc in
    let committed : r.raft_log.committed ≡ l'.committed = cc in
    record { term = term; vote = vote; commits = omega arith; state = state }

from_log-Remembers :
    (cfg : Config) (st : LogStorage) (o : Outcome StorageError RaftLog) (hs : HardState) (r : Raft)
    → st.hard_state ≡ ok hs
    → from_log cfg st o ≡ some (ok r)
    → Remembers hs r
unfolding from_log
from_log-Remembers cfg st (err x) hs r p e = cc
from_log-Remembers cfg st (ok l) hs r p e = started st.hard_state p e
  where
    made : (o : Option Raft) → or_panic o ≡ some (ok r) → o ≡ some r
    made none e = cc
    made (some k) e = cc

    started :
        (o : Outcome StorageError HardState)
        → o ≡ ok hs
        → ◌≡◌ {A = Option (Outcome StorageError Raft)}
            (elim o [ err x ↦ some (err x) | ok h ↦ or_panic (start cfg l h) ])
            (some (ok r))
        → Remembers hs r
    started (err x) q e = cc
    started (ok h) q e =
        let same : h ≡ hs = cc in
        start-Remembers cfg l hs r
          (subst (λ z. start cfg l z ≡ some r) same (made (start cfg l h) e))

-- If newRaft returns a node, from a storage whose hard state can be read, then the node is a
-- follower with the term and the vote of the stored hard state, and its commit index is not
-- below the stored one.
pub new_raft-Remembers :
    (cfg : Config) (st : LogStorage) (hs : HardState) (r : Raft)
    → st.hard_state ≡ ok hs
    → new_raft cfg st ≡ some (ok r)
    → Remembers hs r
unfolding new_raft
new_raft-Remembers cfg st hs r p e = from_log-Remembers cfg st (Log.new_log st) hs r p e

made-ok : (o : Outcome StorageError Raft) (n : Node) → made o ≡ ok n → o ≡ ok n.raft
unfolding made
made-ok (err e) n h = cc
made-ok (ok r) n h = ap (λ (k : Node). ok k.raft) (ok-injective h)

validated :
    (cfg : Config) (st : LogStorage) (n : Node) (v : Option ConfigError)
    → ◌≡◌ {A = Option (Outcome NodeError Node)}
        (elim v [
          | some e ↦ some (err (bad_config e))
          | none ↦ do r ← new_raft cfg st; some (made r)
        ])
        (some (ok n))
    → new_raft cfg st ≡ some (ok n.raft)
validated cfg st n (some e) h = cc
validated cfg st n none h =
    let (o, done, rest) = bind-eq-some (new_raft cfg st) _ h in
    done ∙ ap some (made-ok o n (some-injective _ _ rest))

-- NewNode over a storage whose hard state can be read.
pub new_node-Remembers :
    (cfg : Config) (st : LogStorage) (hs : HardState) (n : Node)
    → st.hard_state ≡ ok hs
    → new_node cfg st ≡ some (ok n)
    → Remembers hs n.raft
unfolding new_node
new_node-Remembers cfg st hs n p h =
    new_raft-Remembers cfg st hs n.raft p (validated cfg st n (validate cfg) h)
