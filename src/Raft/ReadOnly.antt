-- ===== src/Raft/ReadOnly.antt =====
-- raft/readonly.go: ReadIndex requests that wait for a heartbeat quorum, in the order they came.
pub mod Order
pub mod Requests
use parallax_kv.Base.{
  ℕ, Bool, true, false, Option, none, some, List, [], ◌∷◌, ◌++◌, Bytes, length, drop, get_last?,
  ◌==◌, nat_eq, bytes_eq, if◌then◌else◌,
}
use parallax_kv.Base.Panics.{◌>>=◌}
use parallax_kv.Base.GoMap
use parallax_kv.Base.GoMap.{GoMap}
use parallax_kv.Raft.Types.{Message}

pub record ReadIndexStatus : Type 0 where
  pub index : ℕ
  pub req : Message
  pub acks : GoMap ℕ Bool

pub record ReadOnly : Type 0 where
  pub pending_read_index : GoMap Bytes ReadIndexStatus
  pub read_index_queue : List Bytes

abbrev pub new_read_only : ReadOnly
new_read_only = record { pending_read_index = GoMap.empty; read_index_queue = [] }

unfoldable pub add_request : ReadOnly → ℕ → Message → ReadOnly
add_request ro idx m = elim (GoMap.get ro.pending_read_index m.context) [
  | some rs ↦ ro
  | none ↦ record {
    pending_read_index =
        GoMap.put ro.pending_read_index m.context
          (record { index = idx; req = m; acks = GoMap.empty });
    read_index_queue = ro.read_index_queue ++ m.context ∷ [];
  }
]

-- Records an acknowledgement; the number of them so far.
unfoldable pub recv_ack : ReadOnly → ℕ → Bytes → ReadOnly × ℕ
recv_ack ro id context = elim (GoMap.get ro.pending_read_index context) [
  | none ↦ (ro, 0)
  | some rs ↦
      let acks = GoMap.put rs.acks id true in
      (
        record ro {
          pending_read_index = GoMap.put ro.pending_read_index context (record rs { acks = acks });
        },
        length acks,
      )
]

-- The walk of advance along the queue: the requests met and the rest of the queue, if the target
-- was found. A context with no pending request is passed over, the target too.
unfoldable pub walk :
    GoMap Bytes ReadIndexStatus → Bytes → List Bytes → Option (List ReadIndexStatus × List Bytes)
walk pending target [] = none
walk pending target (ctx ∷ queue) =
    let rest = walk pending target queue in
    elim (GoMap.get pending ctx) [
      | none ↦ rest
      | some rs ↦
          if ctx == target
          then some (rs ∷ [], queue)
          else (do (rss, queue') ← rest; some (rs ∷ rss, queue'))
    ]

-- for _, rs := range rss { delete(ro.pendingReadIndex, string(rs.req.Context)) }
unfoldable pub delete_all :
    GoMap Bytes ReadIndexStatus → List ReadIndexStatus → GoMap Bytes ReadIndexStatus
delete_all pending [] = pending
delete_all pending (rs ∷ rss) = delete_all (GoMap.delete pending rs.req.context) rss

unfoldable pub advance : ReadOnly → Bytes → ReadOnly × List ReadIndexStatus
advance ro context = elim (walk ro.pending_read_index context ro.read_index_queue) [
  | none ↦ (ro, [])
  | some (rss, queue) ↦ (
    record { pending_read_index = delete_all ro.pending_read_index rss; read_index_queue = queue },
    rss,
  )
]

-- The token that heartbeats carry; a nil dereference panics.
unfoldable pub last_pending_request_ctx : ReadOnly → Option Bytes
last_pending_request_ctx ro = elim (get_last? ro.read_index_queue) [
  | none ↦ some []
  | some ctx ↦ do rs ← GoMap.get ro.pending_read_index ctx; some rs.req.context
]
