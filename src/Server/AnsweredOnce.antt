-- ===== src/Server/AnsweredOnce.antt =====
-- server/drive.go: the drive loop over any sequence of events, and the channels it answers.
use parallax_kv.Base.{
  ℕ, ◌+◌, ◌≤◌, ◌≡◌, refl, ap, Option, none, some, List, [], ◌∷◌, Bytes, ok, err, be_bytes, bytes_eq,
  arith,
}
use mathlib.Core.Option.{some-injective}
use parallax_kv.Base.Returns.{bind-eq-some}
use parallax_kv.Raft.Types.{Entry, ReadState, Ready, Message, Snapshot}
use parallax_kv.Raft.Step.{Returned}
use parallax_kv.Raft.Node
use parallax_kv.Raft.Node.{Node, is_empty}
use parallax_kv.Kv.Codec.{DecodeError}
use parallax_kv.Kv.Command.{Command}
use parallax_kv.Kv.StateMachine.{StateMachine}
use parallax_kv.Server.{Server, client_key_eq, Request, propose, read_key, not_leader}
use parallax_kv.Server.Waiters.{key_of, release_read, apply_entry}
use parallax_kv.Server.Persist.{Written, persist}
use parallax_kv.Server.Drive.{
  Loop, Event, ticked, received, requested, LoopError, handle, handle_request, proposed, asked,
  proposal, start_drain, is_leader, send, restored, skip_to, install_snapshot, apply_entries,
  release_reads, apply_batch, stored, process, query, next_token, Drains, drained, batch, failed,
  Serves, idle, handled, stopped,
}
use parallax_kv.Server.Drive
use parallax_kv.Server.Answers.{
  one, times, held-put, channel, read_channel, load, load-answer, load-apply_entry,
  load-release_read, load-check_leadership,
}

-- how many requests came with the channel
abbrev pub request_channel : Request → ℕ
request_channel (propose cmd ch) = ch
request_channel (read_key key ch) = ch

abbrev pub asks_in : ℕ → Event → ℕ
asks_in c ticked = 0
asks_in c (received m) = 0
asks_in c (requested req) = one c (request_channel req)

unfoldable pub asks : ℕ → List Event → ℕ
asks c [] = 0
asks c (e ∷ es) = asks_in c e + asks c es

load-proposed :
    (c : ℕ) (s : Server) (cmd : Command) (ch : ℕ) (p : Returned × Node)
    → load c (proposed s cmd ch p).0 ≤ load c s + one c ch
unfolding load proposed
load-proposed c s cmd ch (none, n) =
    omega (arith, held-put channel c s.write_waiters (key_of cmd) ch)
load-proposed c s cmd ch (some e, n) = omega (arith, load-answer c s ch (not_leader n.raft.lead))

load-asked :
    (c : ℕ) (s : Server) (token key : Bytes) (ch : ℕ) (p : Returned × Node)
    → load c (asked s token key ch p).0 ≤ load c s + one c ch
unfolding load asked
load-asked c s token key ch (none, n) =
    omega (arith, held-put read_channel c s.read_waiters token (record { key = key; resp = ch }))
load-asked c s token key ch (some e, n) = omega (arith, load-answer c s ch (not_leader n.raft.lead))

load-handle_request :
    (c : ℕ) (s : Server) (n : Node) (req : Request) (p : Server × Node)
    → handle_request s n req ≡ some p
    → load c p.0 ≤ load c s + one c (request_channel req)
unfolding handle_request load
load-handle_request c s n (propose cmd ch) p h =
    let (r, done, rest) = bind-eq-some (Node.step n (proposal cmd)) _ h in
    omega (arith, ap (λ q. load c q.0) (some-injective _ _ rest), load-proposed c s cmd ch r)
load-handle_request c s n (read_key key ch) p h =
    let token = be_bytes 8 (next_token s).read_token in
    let (r, done, rest) = bind-eq-some (Node.step n (query token)) _ h in
    omega (
      arith,
      ap (λ q. load c q.0) (some-injective _ _ rest),
      load-asked c (next_token s) token key ch r,
    )

load-handle :
    (c : ℕ) (e : Event) (l k : Loop)
    → handle e l ≡ some k
    → load c k.server ≤ load c l.server + asks_in c e
unfolding handle
load-handle c ticked l k h =
    let (n, done, rest) = bind-eq-some (Node.tick l.node) _ h in
    omega (arith, ap (λ (x : Loop). load c x.server) (some-injective _ _ rest))
load-handle c (received m) l k h =
    let (p, done, rest) = bind-eq-some (Node.step l.node m) _ h in
    omega (arith, ap (λ (x : Loop). load c x.server) (some-injective _ _ rest))
load-handle c (requested req) l k h =
    let (p, done, rest) = bind-eq-some (handle_request l.server l.node req) _ h in
    omega (
      arith,
      ap (λ (x : Loop). load c x.server) (some-injective _ _ rest),
      load-handle_request c l.server l.node req p done,
    )

load-skip_to :
    (c : ℕ) (s : Server) (i : ℕ) (r : StateMachine × Option DecodeError)
    → load c (skip_to s i r).0 ≡ load c s
unfolding skip_to load
load-skip_to c s i (sm, none) = refl
load-skip_to c s i (sm, some e) = refl

load-install_snapshot :
    (c : ℕ) (s : Server) (o : Option Snapshot) → load c (install_snapshot s o).0 ≡ load c s
unfolding install_snapshot
load-install_snapshot c s none = refl
load-install_snapshot c s (some snap) = load-skip_to c s snap.metadata.index (restored s.sm snap)

load-apply_entries :
    (c : ℕ) (s : Server) (es : List Entry) (t : Server)
    → apply_entries s es ≡ some t
    → load c t ≤ load c s
unfolding apply_entries
load-apply_entries c s [] t h = omega (arith, ap (load c) (some-injective _ _ h))
load-apply_entries c s (e ∷ es) t h =
    let (s', done, rest) = bind-eq-some (apply_entry s e) _ h in
    omega (arith, load-apply_entry c s e s' done, load-apply_entries c s' es t rest)

load-release_reads :
    (c : ℕ) (s : Server) (reads : List ReadState) → load c (release_reads s reads) ≤ load c s
unfolding release_reads
load-release_reads c s [] = omega arith
load-release_reads c s (rs ∷ reads) =
    omega (arith, load-release_read c s rs, load-release_reads c (release_read s rs) reads)

load-apply_batch :
    (c : ℕ) (rd : Ready) (l : Loop) (p : Server × Option DecodeError) (o : Option LoopError)
    (l' : Loop)
    → apply_batch rd l p ≡ some (o, l')
    → load c l'.server ≤ load c p.0
unfolding apply_batch
load-apply_batch c rd l (s, some e) o l' h =
    omega (arith, ap (λ (x : Option LoopError × Loop). load c x.1.server) (some-injective _ _ h))
load-apply_batch c rd l (s, none) o l' h =
    let (s', done, rest) = bind-eq-some (apply_entries s rd.committed_entries) _ h in
    let (n, advanced, left) = bind-eq-some (Node.advance l.node) _ rest in
    omega (
      arith,
      ap (λ (x : Option LoopError × Loop). load c x.1.server) (some-injective _ _ left),
      load-release_reads c s' rd.read_states,
      load-apply_entries c s rd.committed_entries s' done,
    )

send-server : (ms : List Message) (l : Loop) → (send ms l).server ≡ l.server
unfolding send
send-server [] l = refl
send-server (m ∷ ms) l = refl

load-stored :
    (c : ℕ) (rd : Ready) (l : Loop) (w : Written) (o : Option LoopError) (l' : Loop)
    → stored rd l w ≡ some (o, l')
    → load c l'.server ≤ load c l.server
unfolding stored
load-stored c rd l (err e, w) o l' h =
    omega (arith, ap (λ (x : Option LoopError × Loop). load c x.1.server) (some-injective _ _ h))
load-stored c rd l (ok u, w) o l' h =
    let s = (send rd.messages (record l { world = w; node = Drive.refreshed l.node w })).server in
    omega (
      arith,
      load-apply_batch c rd _ (install_snapshot s rd.snapshot) o l' h,
      load-install_snapshot c s rd.snapshot,
      ap (load c)
          (send-server rd.messages (record l { world = w; node = Drive.refreshed l.node w })),
    )

load-process :
    (c : ℕ) (l : Loop) (o : Option LoopError) (l' : Loop)
    → process l ≡ some (o, l')
    → load c l'.server ≤ load c l.server
unfolding process
load-process c l o l' h =
    let ((rd, n), ready, rest) = bind-eq-some (Node.ready l.node) _ h in
    let (w, done, left) = bind-eq-some (persist rd l.world) _ rest in
    load-stored c rd (record l { node = n }) w o l' left

load-Drains :
    (c : ℕ) {l : Loop} {o : Option LoopError} {l' : Loop}
    → Drains l o l'
    → load c l'.server ≤ load c l.server
load-Drains c (drained h) = omega arith
load-Drains c (batch h p d) = omega (arith, load-process c _ _ _ p, load-Drains c d)
load-Drains c (failed h p) = load-process c _ _ _ p

load-drain :
    (c : ℕ) (k l' : Loop) (o : Option LoopError)
    → Drains (start_drain k) o l'
    → load c l'.server ≤ load c k.server
unfolding start_drain
load-drain c k l' o d = omega (
  arith,
  load-Drains c d,
  load-check_leadership c k.server (is_leader k.node.raft.state) k.node.raft.lead,
)

load-Serves :
    (c : ℕ) {es : List Event} {l l' : Loop}
    → Serves es l l'
    → load c l'.server ≤ load c l.server + asks c es
unfolding asks
load-Serves c idle = omega arith
load-Serves c (handled e h d rest) =
    omega (arith, load-handle c e _ _ h, load-drain c _ _ _ d, load-Serves c rest)
load-Serves c (stopped e why h d) = omega (arith, load-handle c e _ _ h, load-drain c _ _ _ d)

times_at_most : (c : ℕ) (s : Server) → times c s.answers ≤ load c s
unfolding load
times_at_most c s = omega arith

-- Over any events, with their drains, a response channel is answered at most as often as it weighs
-- at the start and as requests come with it: a channel that is new and that one request comes with
-- gets at most one answer, so no send to it blocks the loop.
pub answered_once :
    (c : ℕ) {es : List Event} {l l' : Loop}
    → Serves es l l'
    → times c l'.server.answers ≤ load c l.server + asks c es
answered_once c {l' = l'} run = omega (arith, load-Serves c run, times_at_most c l'.server)
