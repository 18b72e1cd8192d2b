-- ===== src/Raft/Core.antt =====
-- raft/raft.go: the state of a node, and the operations that every role uses. An action returns a
-- result and the new state, or panics (`none`).
use parallax_kv.Base.{
  ℕ, suc, ◌+◌, ◌/◌, ◌%◌, Bool, true, false, Option, none, some, List, [], ◌∷◌, ◌++◌, length, leb,
  add64, ◌==◌, nat_eq, if◌then◌else◌,
}
use parallax_kv.Base.GoMap
use parallax_kv.Base.GoMap.{GoMap}
use parallax_kv.Raft.Config.{Config}
use parallax_kv.Raft.Types.{
  MessageType, msg_propose, msg_pre_vote, msg_pre_vote_resp, Message, HardState, ReadState,
  StateType,
}
use parallax_kv.Raft.Progress.{Progress}
use parallax_kv.Raft.ReadOnly.{ReadOnly, new_read_only}
use parallax_kv.Raft.Log
use parallax_kv.Raft.Log.{RaftLog}

pub record Raft : Type 0 where
  pub cfg : Config
  pub id : ℕ
  pub term : ℕ
  pub vote : ℕ
  pub raft_log : RaftLog
  pub state : StateType
  pub lead : ℕ
  pub peers : List ℕ
  pub prs : GoMap ℕ Progress
  pub votes : GoMap ℕ Bool
  pub msgs : List Message
  pub read_states : List ReadState
  pub read_only : ReadOnly
  pub pending_read_index_messages : List Message
  pub election_elapsed : ℕ
  pub heartbeat_elapsed : ℕ
  pub heartbeat_timeout : ℕ
  pub randomized_election_timeout : ℕ
  pub prev_hard_st : HardState
  pub draws : ℕ  -- how many numbers cfg.Rand has drawn

abbrev pub Action : Type 0 → Type 0
Action A = Raft → Option (A × Raft)

abbrev pub Done : Type 0
Done = Unit {0}

infixl 5 ◌>>=◌ ◌>>◌
abbrev pub ◌>>=◌ : {A B : Type 0} → Action A → (A → Action B) → Action B
◌>>=◌ m f r = elim (m r) [ none ↦ none | some (a, r') ↦ f a r' ]

abbrev pub ◌>>◌ : {B : Type 0} → Action Done → Action B → Action B
m >> k = m >>= λ _. k

abbrev pub pure : {A : Type 0} → A → Action A
pure a r = some (a, r)

abbrev pub gets : {A : Type 0} → (Raft → A) → Action A
gets f r = some (f r, r)

abbrev pub modify : (Raft → Raft) → Action Done
modify f r = some (tt, f r)

-- a read that may panic
abbrev pub reads : {A : Type 0} → (Raft → Option A) → Action A
reads f r = elim (f r) [ none ↦ none | some a ↦ some (a, r) ]

-- an operation of the log
abbrev pub on_log : {A : Type 0} → (RaftLog → Option (A × RaftLog)) → Action A
on_log f r = elim (f r.raft_log) [ none ↦ none | some (a, l) ↦ some (a, record r { raft_log = l }) ]

abbrev pub when : Bool → Action Done → Action Done
when b m = if b then m else pure tt

-- for _, x := range xs { body(x) }
unfoldable pub for_each {ℓ} : {A : Type ℓ} → List A → (A → Action Done) → Action Done
for_each [] body r = some (tt, r)
for_each (x ∷ xs) body r = elim (body x r) [ none ↦ none | some (u, r') ↦ for_each xs body r' ]

-- None, the ID of no node
abbrev pub no_node : ℕ
no_node = 0

unfoldable pub quorum : Raft → ℕ
quorum r = length r.peers / 2 + 1

unfoldable pub hard_state : Raft → HardState
hard_state r = record { term = r.term; vote = r.vote; commit = r.raft_log.committed }

-- the term that send gives a message without one
abbrev pub stamp_term : MessageType → ℕ → ℕ
stamp_term msg_propose term = 0
stamp_term msg_pre_vote term = 0
stamp_term msg_pre_vote_resp term = 0
stamp_term _ term = term

unfoldable pub send : Message → Action Done
send m r = some (
  tt,
  record r {
    msgs =
        r.msgs
        ++ record m { from = r.id; term = if m.term == 0 then stamp_term m.type r.term else m.term }
          ∷ [];
  },
)

-- cfg.Rand.Intn(n): a drawn number below n; a nil source and n = 0 panic.
abbrev draw : Option (ℕ → ℕ) → ℕ → ℕ → Option ℕ
draw none n k = none
draw (some source) n k = if n == 0 then none else some (source k % n)

unfoldable pub reset_randomized_election_timeout : Action Done
reset_randomized_election_timeout r = elim (draw r.cfg.rand r.cfg.election_ticks r.draws) [
  | none ↦ none
  | some x ↦
      some (
        tt,
        record r { randomized_election_timeout = r.cfg.election_ticks + x; draws = suc r.draws },
      )
]

-- the loop of reset over the peers
unfoldable pub fresh_progress : ℕ → ℕ → List ℕ → GoMap ℕ Progress → GoMap ℕ Progress
fresh_progress self last [] prs = prs
fresh_progress self last (id ∷ ids) prs =
    fresh_progress self last ids
      (GoMap.put prs id (record { matched = if id == self then last else 0; next = add64 last 1 }))

unfoldable pub reset : ℕ → Action Done
reset term = do
  modify (λ r. record r {
    term = term;
    vote = if r.term == term then r.vote else no_node;
    lead = no_node;
    election_elapsed = 0;
    heartbeat_elapsed = 0;
  })
  reset_randomized_election_timeout
  last ← reads (λ r. Log.last_index r.raft_log)
  modify (λ r. record r {
    votes = GoMap.empty;
    prs = fresh_progress r.id last r.peers GoMap.empty;
    read_only = new_read_only;
    pending_read_index_messages = [];
  })

unfoldable pub past_election_timeout : Raft → Bool
past_election_timeout r = leb r.randomized_election_timeout r.election_elapsed

abbrev has {ℓ} : {A : Type ℓ} → Option A → Bool
has none = false
has (some a) = true

unfoldable pub promotable : Raft → Bool
promotable r = has (GoMap.get r.prs r.id)

-- Records the first ballot of a node; later ones are ignored.
unfoldable pub record_vote : ℕ → Bool → Action Done
record_vote id granted r = elim (GoMap.get r.votes id) [
  | none ↦ some (tt, record r { votes = GoMap.put r.votes id granted })
  | some g ↦ some (tt, r)
]

unfoldable pub count_votes : Bool → GoMap ℕ Bool → ℕ
count_votes b [] = 0
count_votes true ((id, g) ∷ votes) = let n = count_votes true votes in if g then suc n else n
count_votes false ((id, g) ∷ votes) = let n = count_votes false votes in if g then n else suc n

abbrev pub tally_granted : Raft → ℕ
tally_granted r = count_votes true r.votes

abbrev pub tally_rejected : Raft → ℕ
tally_rejected r = count_votes false r.votes
