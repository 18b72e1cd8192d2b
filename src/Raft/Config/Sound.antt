-- ===== src/Raft/Config/Sound.antt =====
-- raft/config.go, validate: the configurations that it accepts.
use parallax_kv.Base.{
  ℕ, ◌<◌, ◌≡◌, ◌≢◌, ◌↔◌, refl, Bool, true, false, not, ◌&&◌, ◌||◌, none, List, [], ◌∷◌, arith, ◌==◌,
  nat_eq,
}
use parallax_kv.Raft.Config.{Config, contains, validate_peers, is_none, validate}

-- Positive IDs, none of them twice or among `seen`.
unfoldable pub distinct : List ℕ → List ℕ → Bool
distinct seen [] = true
distinct seen (p ∷ ps) =
    let rest = distinct (p ∷ seen) ps in not (p == 0) && (not (contains seen p) && rest)

-- A usable configuration: the timeouts in order, a random source, and a group that the node is in.
pub record IsUsable (c : Config) : Type 0 where
  pub id : c.id ≢ 0
  pub heartbeat : c.heartbeat_ticks ≢ 0
  pub election : c.heartbeat_ticks < c.election_ticks
  pub rand : is_none c.rand ≡ false
  pub peers : distinct [] c.peers ≡ true
  pub member : contains c.peers c.id ≡ true

validate_peers-none :
    (id : ℕ) (seen : List ℕ) (found : Bool) (ps : List ℕ)
    → validate_peers id seen found ps ≡ none
    → (distinct seen ps ≡ true) × ((found || contains ps id) ≡ true)
unfolding validate_peers distinct contains
validate_peers-none id seen found [] e = (refl, ground arith)
validate_peers-none id seen found (p ∷ ps) e =
    ground (arith, validate_peers-none id (p ∷ seen) (found || p == id) ps)

none-validate_peers :
    (id : ℕ) (seen : List ℕ) (found : Bool) (ps : List ℕ)
    → distinct seen ps ≡ true
    → (found || contains ps id) ≡ true
    → validate_peers id seen found ps ≡ none
unfolding validate_peers distinct contains
none-validate_peers id seen found [] d m = ground arith
none-validate_peers id seen found (p ∷ ps) d m =
    ground (arith, none-validate_peers id (p ∷ seen) (found || p == id) ps)

-- What `validate` accepts is usable.
pub validate-IsUsable : (c : Config) → validate c ≡ none → IsUsable c
unfolding validate
validate-IsUsable c e =
    let h = validate_peers-none c.id [] false c.peers in
    record {
      id = ground arith;
      heartbeat = ground arith;
      election = ground arith;
      rand = ground arith;
      peers = ground (arith, h);
      member = ground (arith, h);
    }

usable-validate : (c : Config) → IsUsable c → validate c ≡ none
unfolding validate
usable-validate c u = ground (arith, none-validate_peers c.id [] false c.peers u.peers u.member)

-- validate accepts a configuration exactly if its ID is positive, its heartbeat ticks are
-- positive and fewer than its election ticks, it has a random source, and its peers are
-- positive, distinct, and include the ID.
pub validate_lem : (c : Config) → (validate c ≡ none) ↔ IsUsable c
validate_lem c = (validate-IsUsable c, usable-validate c)
