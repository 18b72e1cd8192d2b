-- ===== src/Server/Waiters.antt =====
-- server/drive.go: committed entries, reads, and the clients that wait for them. `none` is a panic
-- of the state machine.
use parallax_kv.Base.{
  ℕ, Bool, true, false, not, ◌&&◌, Option, none, some, List, [], ◌∷◌, ◌++◌, Bytes, Outcome, ok, err,
  leb, nat_eq, bytes_eq, if◌then◌else◌,
}
use parallax_kv.Base.Panics.{◌>>=◌}
use parallax_kv.Base.GoMap
use parallax_kv.Base.GoMap.{GoMap}
use parallax_kv.Raft.Types.{Entry, EntryType, entry_normal, entry_noop, entry_other, ReadState}
use parallax_kv.Kv.Command.{Command, Result, decode_command}
use parallax_kv.Kv.Codec.{DecodeError}
use parallax_kv.Raft.Node.{is_empty}
use parallax_kv.Kv.StateMachine.{apply, read}
use parallax_kv.Server.{
  Server, ClientKey, client_key_eq, ReadWaiter, OpResult, answered, not_leader,
}

-- ch <- result
abbrev pub answer : Server → ℕ → OpResult → Server
answer s ch r = record s { answers = s.answers ++ (ch, r) ∷ [] }

unfoldable pub served : Server → Bytes → Option ReadWaiter → Server
served s token none = s
served s token (some w) =
    answer (record s { read_waiters = GoMap.delete s.read_waiters token }) w.resp
      (answered (read s.sm w.key))

unfoldable pub serve_read : Server → ReadState → Server
unfolding served
serve_read s rs = served s rs.request_ctx (GoMap.get s.read_waiters rs.request_ctx)

-- A read whose index has been applied is served, another one is kept for later.
unfoldable pub release_read : Server → ReadState → Server
release_read s rs =
    if leb rs.index s.applied
    then serve_read s rs
    else record s { pending_reads = s.pending_reads ++ rs ∷ [] }

-- the loop over the buffered reads; the ones that are kept
unfoldable pub serve_due : Server → List ReadState → Server × List ReadState
serve_due s [] = (s, [])
serve_due s (rs ∷ reads) = elim (leb rs.index s.applied) [
  | true ↦ serve_due (serve_read s rs) reads
  | false ↦ let (s', kept) = serve_due s reads in (s', rs ∷ kept)
]

unfoldable pub serve_pending_reads : Server → Server
unfolding serve_due
serve_pending_reads s =
    let (s', kept) = serve_due s s.pending_reads in record s' { pending_reads = kept }

-- the waiter of a write that was applied, if it waits here
unfoldable pub complete : Server → ClientKey → Result → Option ℕ → Server
complete s k res none = s
complete s k res (some ch) =
    answer (record s { write_waiters = GoMap.delete s.write_waiters k }) ch (answered res)

abbrev pub is_normal : EntryType → Bool
is_normal entry_normal = true
is_normal entry_noop = false
is_normal (entry_other b) = false

abbrev pub key_of : Command → ClientKey
key_of cmd = record { client_id = cmd.client_id; seq = cmd.seq }

-- A command that does not decode is skipped, without the reads that its index releases.
unfoldable pub apply_decoded : Server → Outcome DecodeError Command → Option Server
unfolding complete serve_pending_reads
apply_decoded s (err e) = some s
apply_decoded s (ok cmd) = do
  (res, sm) ← apply s.sm cmd
  let waiter = GoMap.get s.write_waiters (key_of cmd)
  some (serve_pending_reads (complete (record s { sm = sm }) (key_of cmd) res waiter))

unfoldable pub apply_entry : Server → Entry → Option Server
unfolding apply_decoded
apply_entry s e =
    if leb e.index s.applied
    then some s
    else (let s' = record s { applied = e.index } in
        if is_normal e.type && not (is_empty e.payload)
        then apply_decoded s' (decode_command e.payload)
        else some (serve_pending_reads s'))

unfoldable pub fail_writes : ℕ → Server → GoMap ClientKey ℕ → Server
fail_writes lead s [] = s
fail_writes lead s ((k, ch) ∷ ws) = fail_writes lead (answer s ch (not_leader lead)) ws

unfoldable pub fail_reads : ℕ → Server → GoMap Bytes ReadWaiter → Server
fail_reads lead s [] = s
fail_reads lead s ((t, w) ∷ ws) = fail_reads lead (answer s w.resp (not_leader lead)) ws

-- the waiters of a leader that has been deposed
unfoldable pub depose : Server → ℕ → Server
unfolding fail_writes fail_reads
depose s lead = record (fail_reads lead (fail_writes lead s s.write_waiters) s.read_waiters) {
  write_waiters = GoMap.empty;
  read_waiters = GoMap.empty;
  pending_reads = [];
}

-- checkLeadership, of a node that is the leader or not, and that knows this leader
unfoldable pub check_leadership : Server → Bool → ℕ → Server
unfolding depose
check_leadership s is_leader lead =
    record (if s.prev_leader && not is_leader then depose s lead else s) { prev_leader = is_leader }
