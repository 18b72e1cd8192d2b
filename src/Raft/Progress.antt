-- ===== src/Raft/Progress.antt =====
-- raft/progress.go: how far the leader knows a follower's log to be replicated.
use parallax_kv.Base.{ℕ, Bool, true, false, not, ltb, add64, sub64, ◌==◌, nat_eq, if◌then◌else◌}

pub record Progress : Type 0 where
  pub matched : ℕ
  pub next : ℕ

-- Raises Match and Next for an acknowledgement of index n; whether Match advanced.
unfoldable pub maybe_update : Progress → ℕ → Progress × Bool
maybe_update pr n = (
  record {
    matched = if ltb pr.matched n then n else pr.matched;
    next = if ltb pr.next (add64 n 1) then add64 n 1 else pr.next;
  },
  ltb pr.matched n,
)

-- Lowers Next on a rejection that is not stale.
unfoldable pub maybe_decr_to : Progress → ℕ → ℕ → Progress × Bool
maybe_decr_to pr rejected hint =
    if not (sub64 pr.next 1 == rejected)
    then (pr, false)
    else (record pr { next = if ltb (add64 hint 1) 1 then 1 else add64 hint 1 }, true)
