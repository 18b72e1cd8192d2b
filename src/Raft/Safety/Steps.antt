-- ===== src/Raft/Safety/Steps.antt =====
-- raft/step.go and the timers of raft/raft.go: one step or tick of a node.
use parallax_kv.Base.{
  suc, ◌+◌, ◌^◌, ◌<◌, ◌≡◌, ◌≢◌, refl, subst, Bool, true, false, some, arith, if◌then◌else◌, nat_eq,
}
use native.Mathlib.Nat.{le_refl}
use parallax_kv.Raft.Types.{MessageType, msg_propose, msg_read_index, Message}
use parallax_kv.Raft.Core.{Raft, Done, ◌>>=◌, ◌>>◌, modify, when, send}
use parallax_kv.Raft.Keeps.{Keeps, keeps_rules, >>=-eq-some}
use parallax_kv.Raft.Election.{campaign, tick, tick_election, tick_heartbeat}
use parallax_kv.Raft.Step.{
  step, step_by_type, step_propose, step_read_index, step_peer, dispatch, term_rules, refuse_vote,
  returning, has_lease, Returned,
}
use parallax_kv.Raft.Safety.Quiet.{
  Quiet, quiet_rules, append_entry-Quiet, bcast_append-Quiet, bcast_heartbeat-Quiet,
  send_read_index-Quiet,
}
use parallax_kv.Raft.Safety.Elections.{
  Steady, Steady-order, Quiet-Steady, Advances, Advances-order, Steady-Advances,
}
use parallax_kv.Raft.Safety.Campaigns.{Campaigns, campaign-Campaigns}
use parallax_kv.Raft.Safety.Terms.{Admitted, dispatch-Advances, term_rules-Admitted}

ruleset steady_rules = (Steady-order, keeps_rules, Quiet-Steady, refl, le_refl)

tick_heartbeat-Steady : Keeps Steady tick_heartbeat
unfolding tick_heartbeat
tick_heartbeat-Steady = search (steady_rules, bcast_heartbeat-Quiet) depth 14

pub refuse_vote-Quiet : (m : Message) → Keeps Quiet (refuse_vote m)
unfolding refuse_vote send
refuse_vote-Quiet m = record { at = λ r u s e. ground arith }

step_peer-Advances :
    (m : Message) (r : Raft) (u : Done) (s : Raft)
    → m.term + 1 < 2 ^ 64
    → m.term ≢ 0
    → step_peer m r ≡ some (u, s)
    → Advances r s
unfolding step_peer
step_peer-Advances m r u s bound stamped e = leased (has_lease m r) e
  where
    goes_on :
        (k : Raft) (go : Bool)
        → Advances r k
        → (go ≡ true → Admitted m k)
        → when go (dispatch m) k ≡ some (u, s)
        → Advances r s
    goes_on k true ad h e =
        let g = h refl in
        Advances-order.transitive r k s ad
          (dispatch-Advances m k u s (omega (arith, g.not_older)) g e)
    goes_on k false ad h e = let same : k ≡ s = cc in subst (Advances r) same ad

    leased :
        (b : Bool)
        → (if b then refuse_vote m else (do go ← term_rules m; when go (dispatch m))) r
          ≡ some (u, s)
        → Advances r s
    leased true e = Steady-Advances ((Quiet-Steady (refuse_vote-Quiet m)).at r u s e)
    leased false e =
        let (go, k, done, rest) = >>=-eq-some (term_rules m) _ r e in
        let (ad, h) = term_rules-Admitted m r go k stamped done in goes_on k go ad h rest

pub step_propose-Quiet : (m : Message) → Keeps Quiet (step_propose m)
unfolding step_propose
step_propose-Quiet m = search (quiet_rules, append_entry-Quiet, bcast_append-Quiet) depth 22

pub step_read_index-Quiet : (m : Message) → Keeps Quiet (step_read_index m)
unfolding step_read_index
step_read_index-Quiet m = search (quiet_rules, send_read_index-Quiet) depth 22

-- Requests of the node's own client carry no term.
abbrev pub is_local : MessageType → Bool
is_local msg_propose = true
is_local msg_read_index = true
is_local _ = false

-- A message of a peer carries a term, which is below the largest one.
pub record IsWire (m : Message) : Type 0 where
  pub stamped : is_local m.type ≡ false → m.term ≢ 0
  pub below : m.term + 1 < 2 ^ 64

-- Whatever message a node is stepped with, its term does not fall, a vote it has cast stands while
-- the term is the same, and its commit index does not fall.
pub step-Advances :
    (m : Message) (r : Raft) (a : Returned) (s : Raft)
    → IsWire m
    → step m r ≡ some (a, s)
    → Advances r s
unfolding step step_by_type
step-Advances m r a s w e = sorted m.type refl e
  where
    peer : is_local m.type ≡ false → returning (step_peer m) r ≡ some (a, s) → Advances r s
    peer p e =
        let (v, k, done, rest) = >>=-eq-some (step_peer m) _ r e in
        subst (Advances r) (ground arith) (step_peer-Advances m r v k w.below (w.stamped p) done)

    sorted : (t : MessageType) → m.type ≡ t → step_by_type t m r ≡ some (a, s) → Advances r s
    sorted msg_propose p e = Steady-Advances ((Quiet-Steady (step_propose-Quiet m)).at r a s e)
    sorted msg_read_index p e =
        Steady-Advances ((Quiet-Steady (step_read_index-Quiet m)).at r a s e)
    sorted _ p e = peer (cc p) e

Quiet-Advances : {r s : Raft} → Quiet r s → Advances r s
Quiet-Advances q = record {
  term = omega (arith, q.term);
  vote = λ p d. q.vote;
  commits = q.commits;
}

tick_election-Advances :
    (r : Raft) (u : Done) (s : Raft)
    → r.term + 1 < 2 ^ 64
    → tick_election r ≡ some (u, s)
    → Advances r s
unfolding tick_election
tick_election-Advances r u s fits e = due _ e
  where
    aged : Raft
    aged = record r { election_elapsed = suc r.election_elapsed }

    due :
        (b : Bool)
        → when b (modify (λ k. record k { election_elapsed = 0 }) >> campaign) aged ≡ some (u, s)
        → Advances r s
    due true e =
        let h : Campaigns (record aged { election_elapsed = 0 }) s =
          campaign-Campaigns.at _ u s e in
        let ad = h.advances fits in record { term = ad.term; vote = ad.vote; commits = ad.commits }
    due false e =
        let same : aged ≡ s = cc in
        subst (Advances r) same (
          Quiet-Advances (record {
            term = refl;
            vote = refl;
            state = refl;
            id = refl;
            peers = refl;
            commits = le_refl _;
          }))

-- A tick does the same, unless the term wraps around.
pub tick-Advances :
    (r : Raft) (u : Done) (s : Raft) → r.term + 1 < 2 ^ 64 → tick r ≡ some (u, s) → Advances r s
unfolding tick
tick-Advances r u s fits e = ticked _ e
  where
    ticked :
        (b : Bool) → (if b then tick_heartbeat else tick_election) r ≡ some (u, s) → Advances r s
    ticked true e = Steady-Advances (tick_heartbeat-Steady.at r u s e)
    ticked false e = tick_election-Advances r u s fits e
