-- ===== src/Server/Sent.antt =====
-- server/drive.go, drain: the order of the writes of a batch and its messages.
use parallax_kv.Base.{
  ◌≡◌, refl, sym, ap, ◌∙◌, subst, Bool, true, false, ◌⊎◌, inl, inr, Option, none, some, List, [],
  ◌∷◌, ◌++◌, ok, err,
}
use mathlib.Core.Option.{some-injective}
use parallax_kv.Base.Returns.{bind-eq-some}
use parallax_kv.Raft.Types.{Entry, HardState, Snapshot, Message, Ready}
use parallax_kv.Raft.LogStorage.{StorageError}
use parallax_kv.Raft.Node
use parallax_kv.Raft.Node.{Node}
use parallax_kv.Kv.Codec.{DecodeError}
use parallax_kv.Storage.Disk.{
  Storage, torn_frame, compacted, unavailable, bad_segment_name, io_error,
}
use parallax_kv.Storage.Disk.Os.{World}
use parallax_kv.Storage.Disk.Segments.{sync_batch}
use parallax_kv.Storage.Disk.Segments.Flushed.{IsFlushed, sync_batch-IsFlushed}
use parallax_kv.Storage.Disk.Segments.Named.{sync_batch-Settles}
use parallax_kv.Storage.Disk.Snapshots.{apply_snapshot}
use parallax_kv.Storage.Disk.Snapshots.Named.{apply_snapshot-Settles}
use parallax_kv.Storage.Disk.Log.{append_entries, set_hard_state}
use parallax_kv.Server.{Server}
use parallax_kv.Server.Persist.{
  Written, unless_compacted, persist_snapshot, appended, persist_entries, persist_hard_state,
  sync_if, go_on, persist_log, persist,
}
use parallax_kv.Server.Drive.{
  Loop, LoopError, send, install_snapshot, apply_entries, apply_batch, refreshed, stored, process,
}

-- No name is left that an fsync of the directory does not cover, if there was none before.
abbrev pub NamesCovered : World → World → Type 0
NamesCovered u w = u.os.unsynced ≡ [] → w.os.unsynced ≡ []

-- ApplySnapshot has worked, or it has returned ErrCompacted.
abbrev pub Installs : Option Snapshot → World → World → Type 0
Installs none w u = u ≡ w
Installs (some snap) w u =
    ((apply_snapshot snap w ≡ (ok tt, u)) × NamesCovered w u)
    ⊎ (apply_snapshot snap w ≡ (err compacted, u))

abbrev pub with_hard_state : Option HardState → Storage → Storage
with_hard_state none s = s
with_hard_state (some hs) s = set_hard_state s hs

-- Sync has returned no error, where it is asked for.
abbrev pub Syncs : Bool → World → World → Type 0
Syncs false u w = w ≡ u
Syncs true u w = (sync_batch u ≡ (ok tt, w)) × IsFlushed u w × NamesCovered u w

-- The writes of a batch, from one world to another.
pub record IsWritten (rd : Ready) (w w' : World) : Type 0 where
  pub installed : World
  pub log : Storage
  pub snapshot : Installs rd.snapshot w installed
  pub entries : append_entries installed.storage rd.entries ≡ some (log, none)
  pub closes :
      Syncs rd.must_sync (record installed { storage = with_hard_state rd.hard_state log }) w'

-- What sent the messages of a batch: the batch was written, without an error.
pub record IsSent (l l' : Loop) : Type 0 where
  pub batch : Ready
  pub node : Node
  pub ready : Node.ready l.node ≡ some (batch, node)
  pub written : IsWritten batch l.world l'.world
  pub sent : l'.sent ≡ l.sent ++ batch.messages ∷ []

snapshot-Installs :
    (o : Option Snapshot) (w u : World) → persist_snapshot o w ≡ (ok tt, u) → Installs o w u
unfolding persist_snapshot
snapshot-Installs none w u h = ap (λ p. p.1) (sym h)
snapshot-Installs (some snap) w u h = elim (tolerated (apply_snapshot snap w) h) [
  | inl done ↦ inl (done, (apply_snapshot-Settles snap).at w u tt done)
  | inr stale ↦ inr stale
]
  where
    tolerated :
        (p : Written)
        → unless_compacted p ≡ (ok tt, u)
        → (p ≡ (ok tt, u)) ⊎ (p ≡ (err compacted, u))
    tolerated (ok t, v) e = inl e
    tolerated (err torn_frame, v) e = cc
    tolerated (err compacted, v) e = inr (ap (λ q. (err compacted, q.1)) e)
    tolerated (err unavailable, v) e = cc
    tolerated (err bad_segment_name, v) e = cc
    tolerated (err io_error, v) e = cc

entries-appends :
    (es : List Entry) (w u : World)
    → persist_entries es w ≡ some (ok tt, u)
    → (log : Storage) × (append_entries w.storage es ≡ some (log, none))
      × (u ≡ record w { storage = log })
unfolding persist_entries
entries-appends [] w u h =
    (w.storage, unfold append_entries in refl, ap (λ p. p.1) (some-injective _ _ (sym h)))
entries-appends (e ∷ es) w u h =
    let (r, ran, rest) = bind-eq-some (append_entries w.storage (e ∷ es)) _ h in
    let (log, is, left) = no_error r (some-injective _ _ rest) in (log, ran ∙ ap some is, left)
  where
    no_error :
        (r : Storage × Option StorageError)
        → appended w r ≡ (ok tt, u)
        → (log : Storage) × (r ≡ (log, none)) × (u ≡ record w { storage = log })
    no_error (log, none) e = (log, refl, ap (λ p. p.1) (sym e))
    no_error (log, some why) e = cc

hard_state-left :
    (o : Option HardState) (w : World)
    → persist_hard_state o w ≡ (ok tt, record w { storage = with_hard_state o w.storage })
unfolding persist_hard_state
hard_state-left none w = refl
hard_state-left (some hs) w = refl

sync_if-Syncs : (b : Bool) (u w : World) → sync_if b u ≡ (ok tt, w) → Syncs b u w
unfolding sync_if
sync_if-Syncs false u w h = ap (λ p. p.1) (sym h)
sync_if-Syncs true u w h = (h, sync_batch-IsFlushed u w h, sync_batch-Settles.at u w tt h)

-- A write whose followers all worked has worked.
go_on-ok :
    (k : World → Option Written) (p : Written) (w : World)
    → go_on k p ≡ some (ok tt, w)
    → (u : World) × (p ≡ (ok tt, u)) × (k u ≡ some (ok tt, w))
go_on-ok k (ok tt, u) w h = (u, refl, h)
go_on-ok k (err e, u) w h = cc

persist-IsWritten :
    (rd : Ready) (w w' : World) → persist rd w ≡ some (ok tt, w') → IsWritten rd w w'
unfolding persist persist_log
persist-IsWritten rd w w' h =
    let (u, snap, rest) = go_on-ok (persist_log rd) (persist_snapshot rd.snapshot w) w' h in
    let (p, ran, later) = bind-eq-some (persist_entries rd.entries u) _ rest in
    let (v, worked, last) = go_on-ok _ p w' later in
    let (log, is, left) = entries-appends rd.entries u v (ran ∙ ap some worked) in
    let closing : some
          (sync_if rd.must_sync (record v { storage = with_hard_state rd.hard_state v.storage }))
        ≡ some (ok tt, w') =
      sym (ap (go_on (λ x. some (sync_if rd.must_sync x))) (hard_state-left rd.hard_state v))
      ∙ last in
    record {
      installed = u;
      log = log;
      snapshot = snapshot-Installs rd.snapshot w u snap;
      entries = is;
      closes = sync_if-Syncs rd.must_sync _ w' (
          ap
            (λ (x : World).
              sync_if rd.must_sync (record x { storage = with_hard_state rd.hard_state x.storage }))
            (sym left)
          ∙ some-injective _ _ closing);
    }

-- Applying a batch writes nothing and sends nothing.
apply_batch-outside :
    (rd : Ready) (l : Loop) (p : Server × Option DecodeError) (o : Option LoopError) (l' : Loop)
    → apply_batch rd l p ≡ some (o, l')
    → (l'.sent ≡ l.sent) × (l'.world ≡ l.world)
unfolding apply_batch
apply_batch-outside rd l (s, some e) o l' h =
    let same = ap (λ (x : Option LoopError × Loop). x.1) (some-injective _ _ (sym h)) in
    (ap (λ (x : Loop). x.sent) same, ap (λ (x : Loop). x.world) same)
apply_batch-outside rd l (s, none) o l' h =
    let (s', done, rest) = bind-eq-some (apply_entries s rd.committed_entries) _ h in
    let (n, advanced, left) = bind-eq-some (Node.advance l.node) _ rest in
    let same = ap (λ (x : Option LoopError × Loop). x.1) (some-injective _ _ (sym left)) in
    (ap (λ (x : Loop). x.sent) same, ap (λ (x : Loop). x.world) same)

send-outside :
    (ms : List Message) (l : Loop)
    → ((send ms l).world ≡ l.world)
      × (((send ms l).sent ≡ l.sent) ⊎ ((send ms l).sent ≡ l.sent ++ ms ∷ []))
unfolding send
send-outside [] l = (refl, inl refl)
send-outside (m ∷ ms) l = (refl, inr refl)

stored-IsSent :
    (l : Loop) (rd : Ready) (n : Node) (w : Written) (o : Option LoopError) (l' : Loop)
    → Node.ready l.node ≡ some (rd, n)
    → persist rd l.world ≡ some w
    → stored rd (record l { node = n }) w ≡ some (o, l')
    → (l'.sent ≡ l.sent) ⊎ IsSent l l'
unfolding stored
stored-IsSent l rd n (err e, w) o l' ready done h =
    inl (ap (λ (x : Option LoopError × Loop). x.1.sent) (some-injective _ _ (sym h)))
stored-IsSent l rd n (ok tt, w) o l' ready done h =
    let m : Loop = record l { node = refreshed n w; world = w } in
    let k = send rd.messages m in
    let (kept, held) = apply_batch-outside rd k (install_snapshot k.server rd.snapshot) o l' h in
    let (world, sent) = send-outside rd.messages m in
    elim sent [
      | inl none_sent ↦ inl (kept ∙ none_sent)
      | inr one_sent ↦ inr (record {
        batch = rd;
        node = n;
        ready = ready;
        written =
            subst (IsWritten rd l.world) (sym (held ∙ world)) (persist-IsWritten rd l.world w done);
        sent = kept ∙ one_sent;
      })
    ]

-- One batch of the drain sends its messages only if all of it was written first and no write
-- returned an error: ApplySnapshot of its snapshot, which alone may answer ErrCompacted
-- instead, AppendEntries of its entries, SetHardState of its hard state, and
-- Sync where the batch asks for it, each on what the one before has left. Behind that Sync no record
-- is left in the buffer, and if there was one and the store issues fsyncs, an fsync has covered all
-- of the active segment. ApplySnapshot and Sync that work leave no file name that an fsync of the
-- directory does not cover, if there was none before. Else, whatever it returns, the batch sends nothing. Nothing is written
-- behind the messages.
pub process-IsSent :
    (l : Loop) (o : Option LoopError) (l' : Loop)
    → process l ≡ some (o, l')
    → (l'.sent ≡ l.sent) ⊎ IsSent l l'
unfolding process
process-IsSent l o l' h =
    let ((rd, n), ready, rest) = bind-eq-some (Node.ready l.node) _ h in
    let (w, done, left) = bind-eq-some (persist rd l.world) _ rest in
    stored-IsSent l rd n w o l' ready done left
