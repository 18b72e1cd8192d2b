-- ===== src/Server/Restart.antt =====
-- server/server.go, New: what a restarted server remembers.
use parallax_kv.Base.{
  ℕ, ◌+◌, ◌^◌, ◌<◌, ◌≡◌, refl, sym, ap, ◌∙◌, subst, true, false, Bool, Option, none, some, [],
  Outcome, ok, err, ok-injective, ltb, ◌==◌, nat_eq, Bytes, if◌then◌else◌,
}
use mathlib.Core.Option.{some-injective}
use parallax_kv.Base.Returns.{bind-eq-some}
use parallax_kv.Base.GoMap
use parallax_kv.Raft.Types.{HardState, Ready}
use parallax_kv.Raft.Node.{Node, NodeError, new_node}
use parallax_kv.Raft.Node.Restart.{Remembers, new_node-Remembers}
use parallax_kv.Kv.Codec.{DecodeError}
use parallax_kv.Kv.StateMachine.{StateMachine, new_state_machine}
use parallax_kv.Storage.Mem
use parallax_kv.Storage.Disk.{Storage, DiskError}
use parallax_kv.Storage.Disk.Os.{Os, World}
use parallax_kv.Storage.Disk.Os.Calm.{Directory, calm}
use parallax_kv.Storage.Disk.Segments.{disable_sync}
use parallax_kv.Storage.Disk.Wal.{open_storage}
use parallax_kv.Storage.Disk.Recovery.Crash.{crash_image}
use parallax_kv.Storage.Disk.Recovery.Runs.{Run}
use parallax_kv.Server.Persist.{as_log_storage, persist}
use parallax_kv.Server.Durable.{EntriesFit, StateFits, with_state, persist-Survives}
use parallax_kv.Server.Drive.{Loop, restored}
use parallax_kv.Server.Start.{
  Config, StartError, id_not_positive, self_not_in_peers, sync_mode, started, resumed, with_node,
  with_store, with_defaults, raft_config, new_server,
}

-- The parts of a start that has worked.
resumed-node :
    (w : World) (n : Node) (r : StateMachine × Option DecodeError) (l : Loop)
    → resumed w n r ≡ ok l
    → l.node ≡ n
unfolding resumed
resumed-node w n (sm, none) l h = ap (λ (x : Loop). x.node) (sym (ok-injective h))
resumed-node w n (sm, some e) l h = cc

resumed_or_fresh :
    (b : Bool) (w : World) (n : Node) (r : StateMachine × Option DecodeError) (l : Loop)
    → (if b then resumed w n r else ok (started w n new_state_machine 0)) ≡ ok l
    → l.node ≡ n
resumed_or_fresh true w n r l h = resumed-node w n r l h
resumed_or_fresh false w n r l h = ap (λ (x : Loop). x.node) (sym (ok-injective h))

with_node-node :
    (w : World) (o : Outcome NodeError Node) (l : Loop) → with_node w o ≡ ok l → o ≡ ok l.node
unfolding with_node
with_node-node w (err e) l h = cc
with_node-node w (ok n) l h = ap ok (
    sym (
      resumed_or_fresh (ltb 0 w.storage.snapshot.metadata.index) w n
        (restored new_state_machine w.storage.snapshot) l h))

sync_mode-hard_state :
    (off : Bool) (w : World) → (sync_mode off w).storage.hard_state ≡ w.storage.hard_state
unfolding disable_sync
sync_mode-hard_state true w = refl
sync_mode-hard_state false w = refl

with_store-Remembers :
    (c : Config) (rand : ℕ → ℕ) (p : Outcome DiskError (Unit {0}) × World) (l : Loop)
    → with_store c rand p ≡ some (ok l)
    → Remembers p.1.storage.hard_state l.node.raft
unfolding with_store
with_store-Remembers c rand (err e, w) l h = cc
with_store-Remembers c rand (ok u, w) l h =
    let w' = sync_mode c.unsafe_no_sync w in
    let st = as_log_storage w'.storage in
    let (o, done, rest) = bind-eq-some (new_node (raft_config c rand) st) _ h in
    let same = with_node-node w' o l (some-injective _ _ rest) in
    subst (λ hs. Remembers hs l.node.raft) (sync_mode-hard_state c.unsafe_no_sync w)
      (new_node-Remembers (raft_config c rand) st w'.storage.hard_state l.node refl
        (done ∙ ap some same))

-- the checks of New before it opens the store
self_is_peer :
    (o : Option Bytes) (m : Option (Outcome StartError Loop)) (l : Loop)
    → (elim o [ none ↦ some (err self_not_in_peers) | some address ↦ m ]) ≡ some (ok l)
    → m ≡ some (ok l)
self_is_peer none m l h = cc
self_is_peer (some address) m l h = h

id_is_positive :
    (b : Bool) (m : Option (Outcome StartError Loop)) (l : Loop)
    → (if b then some (err id_not_positive) else m) ≡ some (ok l)
    → m ≡ some (ok l)
id_is_positive true m l h = cc
id_is_positive false m l h = h

-- a server that New returns, over the store that Open returned
new_server-Remembers :
    (c : Config) (rand : ℕ → ℕ) (os : Os) (l : Loop)
    → new_server c rand os ≡ some (ok l)
    → Remembers (open_storage os).1.storage.hard_state l.node.raft
unfolding new_server
new_server-Remembers c rand os l h =
    with_store-Remembers (with_defaults c) rand (open_storage os) l (
      self_is_peer (GoMap.get c.peers c.id) (with_store (with_defaults c) rand (open_storage os)) l
        (id_is_positive (c.id == 0) _ l h))

with_state-hard_state :
    (m : Mem.Storage) (hs : HardState) → (with_state m (some hs)).hard_state ≡ hs
unfolding Mem.set_hard_state
with_state-hard_state m hs = refl

-- Behind a run from Open of an empty directory, which appends contiguous entries that leave no gap
-- and can be encoded (a payload stays below the limit of a frame), sets hard states that fit
-- words, syncs, and crashes and is opened again, without ApplySnapshot, DisableSync and failing
-- calls: the writes of a batch that has a hard state and no snapshot and asks for an fsync work,
-- if its entries are contiguous, leave no gap behind the log and can be encoded, its hard state
-- fits words, and the number of the next segment fits a word. Then the machine may crash at any
-- moment before the next write: a server that New returns from the files that are left is a
-- follower with the term and the vote of that hard state, and its commit index is not below that
-- of the hard state.
pub restarted-Remembers :
    {s : Storage} {d : Directory} (rd : Ready) (hs : HardState) (c : Config) (rand : ℕ → ℕ)
    → Run s d
    → s.seg_seq + 1 < 2 ^ 64
    → rd.snapshot ≡ none
    → rd.must_sync ≡ true
    → rd.hard_state ≡ some hs
    → EntriesFit s rd.entries
    → StateFits rd.hard_state
    → (s' : Storage) × (d' : Directory) × (persist rd (calm s d) ≡ some (ok tt, calm s' d'))
      × ((m : ℕ) (l : Loop)
          → new_server c rand
              (record { directory = crash_image s' d' m; faults = []; unsynced = [] })
            ≡ some (ok l)
          → Remembers hs l.node.raft)
restarted-Remembers rd hs c rand run word no_snap durable state fit fits =
    let (s', d', m, ran, appended, survives) =
      persist-Survives rd run word no_snap durable fit fits in
    (
      s',
      d',
      ran,
      λ at l started.
          let (t, e, opening, same) = survives at in
          let stored : t.hard_state ≡ hs =
            ap (λ (x : Mem.Storage). x.hard_state) same
            ∙ ap (λ o. (with_state m o).hard_state) state
            ∙ with_state-hard_state m hs in
          subst (λ x. Remembers x l.node.raft) (ap (λ p. p.1.storage.hard_state) opening ∙ stored)
            (new_server-Remembers c rand _ l started),
    )
