-- ===== src/Raft/Config.antt =====
-- raft/config.go: what a node is constructed from. Tick counts and limits are the non-negative
-- numbers (a negative limit acts as 0, and `validate` refuses negative tick counts as it does 0).
-- `rand` is the injected *rand.Rand: the numbers that it will draw, `none` if it is nil.
pub mod Sound
use parallax_kv.Base.{
  ℕ, Bool, true, false, not, ◌||◌, Option, none, some, List, [], ◌∷◌, leb, ◌==◌, nat_eq,
  if◌then◌else◌,
}

pub record Config : Type 0 where
  pub id : ℕ
  pub peers : List ℕ
  pub election_ticks : ℕ
  pub heartbeat_ticks : ℕ
  pub max_entries_per_append : ℕ
  pub pre_vote : Bool
  pub rand : Option (ℕ → ℕ)

-- the errors of validate, in the order of its text
pub data ConfigError : Type 0 where
  id_not_positive election_too_short heartbeat_not_positive rand_required : ConfigError
  peer_not_positive peer_not_unique self_not_a_peer : ConfigError

-- whether an ID stands in a list: the map `seen`, and the flag `found`
unfoldable pub contains : List ℕ → ℕ → Bool
contains [] p = false
contains (q ∷ qs) p = q == p || contains qs p

-- The loop over the peers; `seen` holds those before, and `found` tells whether ID was among them.
unfoldable pub validate_peers : ℕ → List ℕ → Bool → List ℕ → Option ConfigError
validate_peers id seen found [] = if found then none else some self_not_a_peer
validate_peers id seen found (p ∷ ps) =
    let rest = validate_peers id (p ∷ seen) (found || p == id) ps in
    if p == 0
    then some peer_not_positive
    else if contains seen p
    then some peer_not_unique
    else rest

-- Rand == nil
abbrev pub is_none {ℓ} : {A : Type ℓ} → Option A → Bool
is_none none = true
is_none (some a) = false

unfoldable pub validate : Config → Option ConfigError
validate c =
    if c.id == 0
    then some id_not_positive
    else if leb c.election_ticks c.heartbeat_ticks
    then some election_too_short
    else if c.heartbeat_ticks == 0
    then some heartbeat_not_positive
    else if is_none c.rand
    then some rand_required
    else validate_peers c.id [] false c.peers
