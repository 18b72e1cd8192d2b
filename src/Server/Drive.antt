-- ===== src/Server/Drive.antt =====
-- server/drive.go: the drive loop, its requests, and one batch of work, in the order persist, send,
-- apply, advance. `none` is a panic. A select takes one event at a time, so the loop is a list of
-- events; the loop over the batches is a relation, since a batch may leave work for a next one.
use parallax_kv.Base.{
  ℕ, Bool, true, false, Option, none, some, List, [], ◌∷◌, ◌++◌, ◌≡◌, Bytes, ok, err, ltb, add64,
  be_bytes, bytes_eq, if◌then◌else◌,
}
use parallax_kv.Base.Panics.{◌>>=◌}
use parallax_kv.Base.GoMap
use parallax_kv.Raft.Types.{
  Entry, entry_normal, Snapshot, Message, msg_propose, msg_read_index, blank, ReadState, Ready,
  StateType, state_leader, state_follower, state_candidate, state_pre_candidate,
}
use parallax_kv.Raft.Step.{Returned}
use parallax_kv.Raft.Node
use parallax_kv.Raft.Node.{Node, is_empty}
use parallax_kv.Kv.Codec.{DecodeError}
use parallax_kv.Kv.Command.{Command, encode_command}
use parallax_kv.Kv.StateMachine.{StateMachine}
use parallax_kv.Kv.StateMachine.Snapshot.{restore}
use parallax_kv.Storage.Disk.{DiskError}
use parallax_kv.Storage.Disk.Os.{World}
use parallax_kv.Server.{Server, client_key_eq, not_leader, Request, propose, read_key}
use parallax_kv.Server.Waiters.{answer, key_of, apply_entry, release_read, check_leadership}
use parallax_kv.Server.Persist.{Written, as_log_storage, persist}

pub record Loop : Type 0 where
  pub server : Server
  pub node : Node
  -- the store with its directory
  pub world : World
  -- the batches that Send was called with
  pub sent : List (List Message)

-- what drain returns: an error of the store, or a snapshot that does not decode
pub data LoopError : Type 0 where
  not_stored : DiskError → LoopError
  not_restored : DecodeError → LoopError

pub data Event : Type 0 where
  ticked : Event
  received : Message → Event
  requested : Request → Event

-- The waiter of a proposal that the node has accepted.
unfoldable pub proposed : Server → Command → ℕ → Returned × Node → Server × Node
proposed s cmd ch (none, n) =
    (record s { write_waiters = GoMap.put s.write_waiters (key_of cmd) ch }, n)
proposed s cmd ch (some e, n) = (answer s ch (not_leader n.raft.lead), n)

unfoldable pub asked : Server → Bytes → Bytes → ℕ → Returned × Node → Server × Node
asked s token key ch (none, n) = (
  record s { read_waiters = GoMap.put s.read_waiters token (record { key = key; resp = ch }) },
  n,
)
asked s token key ch (some e, n) = (answer s ch (not_leader n.raft.lead), n)

abbrev pub proposal : Command → Message
proposal cmd = record (blank msg_propose) {
  entries = record { term = 0; index = 0; type = entry_normal; payload = encode_command cmd } ∷ [];
}

abbrev pub query : Bytes → Message
query token = record (blank msg_read_index) { context = token }

abbrev pub next_token : Server → Server
next_token s = record s { read_token = add64 s.read_token 1 }

unfoldable pub handle_request : Server → Node → Request → Option (Server × Node)
unfolding proposed asked
handle_request s n (propose cmd ch) = do
  stepped ← Node.step n (proposal cmd)
  some (proposed s cmd ch stepped)
handle_request s n (read_key key ch) = do
  let token = be_bytes 8 (next_token s).read_token
  stepped ← Node.step n (query token)
  some (asked (next_token s) token key ch stepped)

-- one event of the select, without the drain behind it
unfoldable pub handle : Event → Loop → Option Loop
handle ticked l = do n ← Node.tick l.node; some (record l { node = n })
handle (received m) l = do (e, n) ← Node.step l.node m; some (record l { node = n })
handle (requested req) l = do
  (s, n) ← handle_request l.server l.node req
  some (record l { server = s; node = n })

abbrev pub is_leader : StateType → Bool
is_leader state_follower = false
is_leader state_pre_candidate = false
is_leader state_candidate = false
is_leader state_leader = true

-- the start of drain
unfoldable pub start_drain : Loop → Loop
start_drain l =
    let r = l.node.raft in
    record l { server = check_leadership l.server (is_leader r.state) r.lead }

-- (2) Send
unfoldable pub send : List Message → Loop → Loop
send ms l = if is_empty ms then l else record l { sent = l.sent ++ ms ∷ [] }

-- s.sm.Restore, for a snapshot with data
unfoldable pub restored : StateMachine → Snapshot → StateMachine × Option DecodeError
restored sm snap = if is_empty snap.payload then (sm, none) else restore sm snap.payload

unfoldable pub skip_to :
    Server → ℕ → StateMachine × Option DecodeError → Server × Option DecodeError
skip_to s i (sm, some e) = (record s { sm = sm }, some e)
skip_to s i (sm, none) =
    (record s { sm = sm; applied = if ltb s.applied i then i else s.applied }, none)

unfoldable pub install_snapshot : Server → Option Snapshot → Server × Option DecodeError
unfolding skip_to
install_snapshot s none = (s, none)
install_snapshot s (some snap) = skip_to s snap.metadata.index (restored s.sm snap)

unfoldable pub apply_entries : Server → List Entry → Option Server
apply_entries s [] = some s
apply_entries s (e ∷ es) = do s' ← apply_entry s e; apply_entries s' es

unfoldable pub release_reads : Server → List ReadState → Server
release_reads s [] = s
release_reads s (rs ∷ reads) = release_reads (release_read s rs) reads

-- (3) Apply and (4) Advance
unfoldable pub apply_batch :
    Ready → Loop → Server × Option DecodeError → Option (Option LoopError × Loop)
unfolding apply_entries release_reads
apply_batch rd l (s, some e) = some (some (not_restored e), record l { server = s })
apply_batch rd l (s, none) = do
  s' ← apply_entries s rd.committed_entries
  n ← Node.advance l.node
  some (none, record l { server = release_reads s' rd.read_states; node = n })

-- The node reads from the store as it is now.
abbrev pub refreshed : Node → World → Node
refreshed n w = record n {
  raft = record n.raft { raft_log = record n.raft.raft_log { storage = as_log_storage w.storage } };
}

-- what follows the writes
unfoldable pub stored : Ready → Loop → Written → Option (Option LoopError × Loop)
unfolding apply_batch send
stored rd l (err e, w) =
    some (some (not_stored e), record l { world = w; node = refreshed l.node w })
stored rd l (ok u, w) =
    let l' = send rd.messages (record l { world = w; node = refreshed l.node w }) in
    apply_batch rd l' (install_snapshot l'.server rd.snapshot)

-- the body of the loop in drain
unfoldable pub process : Loop → Option (Option LoopError × Loop)
unfolding stored
process l = do
  (rd, n) ← Node.ready l.node
  written ← persist rd l.world
  stored rd (record l { node = n }) written

-- the loop in drain, with what drain returns
pub data Drains : Loop → Option LoopError → Loop → Type 0 where
  drained : {l : Loop} → Node.has_ready l.node ≡ some false → Drains l none l
  batch :
      {l l' l'' : Loop} {e : Option LoopError}
      → Node.has_ready l.node ≡ some true
      → process l ≡ some (none, l')
      → Drains l' e l''
      → Drains l e l''
  failed :
      {l l' : Loop} {e : LoopError}
      → Node.has_ready l.node ≡ some true
      → process l ≡ some (some e, l')
      → Drains l (some e) l'

-- The events of driveLoop, each with its drain; a drain that fails ends the loop.
pub data Serves : List Event → Loop → Loop → Type 0 where
  idle : {l : Loop} → Serves [] l l
  handled :
      {l k l' l'' : Loop} {es : List Event} (e : Event)
      → handle e l ≡ some k
      → Drains (start_drain k) none l'
      → Serves es l' l''
      → Serves (e ∷ es) l l''
  stopped :
      {l k l' : Loop} {es : List Event} (e : Event) (why : LoopError)
      → handle e l ≡ some k
      → Drains (start_drain k) (some why) l'
      → Serves (e ∷ es) l l'
