-- ===== src/Server/Durable.antt =====
-- server/drive.go over storage/disk: what a batch has made durable before its messages leave.
use parallax_kv.Base.{
  ℕ, ◌+◌, ◌^◌, ◌<◌, ◌≤◌, ◌≡◌, refl, sym, ap, ◌∙◌, true, Option, none, some, List, [], ◌∷◌, ◌++◌, ok,
  length, arith,
}
use parallax_kv.Base.Panics.{◌>>=◌}
use parallax_kv.Raft.Types.{Entry, HardState, Ready}
use parallax_kv.Storage.Mem
use parallax_kv.Storage.Mem.Append.{contiguous}
use parallax_kv.Storage.Disk.{Storage, new, offset}
use parallax_kv.Storage.Disk.Os.{World}
use parallax_kv.Storage.Disk.Os.Calm.{Directory, calm}
use parallax_kv.Storage.Disk.Records.Redo.{set_state, IsSound, AllSound}
use parallax_kv.Storage.Disk.Wal.{open_storage}
use parallax_kv.Storage.Disk.Log.{set_hard_state}
use parallax_kv.Storage.Disk.Log.Mirror.{mem_of, appended_of, append_entries-mem_of}
use parallax_kv.Storage.Disk.Log.Logged.{puts, append_entries-Logs}
use parallax_kv.Storage.Disk.Recovery.{records}
use parallax_kv.Storage.Disk.Recovery.Crash.{crash_image}
use parallax_kv.Storage.Disk.Recovery.Runs.{
  Run, append, set, Run-IsSafe, offset_new, synced_survive,
}
use parallax_kv.Server.Persist.{
  persist, persist_snapshot, persist_log, persist_entries, persist_hard_state, sync_if, go_on,
}

-- Entries that the store can append: their fields are in range, they are contiguous, and there is
-- no gap before them.
abbrev pub EntriesFit : Storage → List Entry → Type 0
EntriesFit s [] = Unit {0}
EntriesFit s (e ∷ es) =
    AllSound (puts (e ∷ es))
    × (contiguous e.index (e ∷ es) ≡ true)
    × (e.index ≤ offset s + length s.entries + 1)

abbrev pub StateFits : Option HardState → Type 0
StateFits none = Unit {0}
StateFits (some hs) = IsSound (set_state hs)

-- the store in memory behind the same writes
abbrev pub with_state : Mem.Storage → Option HardState → Mem.Storage
with_state m none = m
with_state m (some hs) = Mem.set_hard_state m hs

persist_entries-Run :
    (s : Storage) (d : Directory) (es : List Entry)
    → Run s d
    → EntriesFit s es
    → (t : Storage) × (persist_entries es (calm s d) ≡ some (ok tt, calm t d))
      × Run t d
      × (t.seg_seq ≡ s.seg_seq)
      × (Mem.append_entries (mem_of s) es ≡ some (mem_of t, none))
unfolding persist_entries
persist_entries-Run s d [] run fit = (s, refl, run, refl, unfold Mem.append_entries in refl)
persist_entries-Run s d (e ∷ es) run (sound, dense, gap) =
    let h = (Run-IsSafe run).durable in
    let all = (records h.older ++ h.safe) ++ h.pending in
    let (t, news, ran, l) =
      append_entries-Logs new s all e es h.logged sound dense gap
        (omega (arith, offset_new s all h.logged)) in
    (
      t,
      ap (λ o. o >>= λ r. some (parallax_kv.Server.Persist.appended (calm s d) r)) ran,
      append e es run sound dense gap ran,
      ap (λ (x : Storage). x.seg_seq) l.rest,
      sym (append_entries-mem_of s (e ∷ es)) ∙ ap appended_of ran,
    )

persist_hard_state-Run :
    (s : Storage) (d : Directory) (o : Option HardState)
    → Run s d
    → StateFits o
    → (t : Storage) × (persist_hard_state o (calm s d) ≡ (ok tt, calm t d))
      × Run t d
      × (t.seg_seq ≡ s.seg_seq)
      × (mem_of t ≡ with_state (mem_of s) o)
unfolding persist_hard_state
persist_hard_state-Run s d none run fit = (s, refl, run, refl, refl)
persist_hard_state-Run s d (some hs) run fit = (
  set_hard_state s hs,
  refl,
  set hs run fit,
  unfold set_hard_state in refl,
  unfold set_hard_state Mem.set_hard_state in refl,
)

persist-persist_log :
    (rd : Ready) (w : World) → rd.snapshot ≡ none → persist rd w ≡ persist_log rd w
unfolding persist persist_snapshot
persist-persist_log rd w h = ap (λ o. go_on (persist_log rd) (persist_snapshot o w)) h

-- What a reopened store holds behind a batch, at whichever byte the machine has crashed.
abbrev pub Survives : Storage → Directory → Mem.Storage → Type 0
Survives s d held =
    (m : ℕ)
    → (t : Storage) × (e : Directory) × (open_storage
          (record { directory = crash_image s d m; faults = []; unsynced = [] })
        ≡ (ok tt, calm t e))
      × (mem_of t ≡ held)

-- Behind a run from Open of an empty directory, which appends contiguous entries that leave no gap
-- and can be encoded (a payload stays below the limit of a frame), sets hard states that fit
-- words, syncs, and crashes and is opened again, without ApplySnapshot, DisableSync and failing
-- calls: the writes of a batch that has no snapshot and asks for an fsync all work, if its entries
-- are contiguous, leave no gap behind the log and can be encoded, its hard state, if it has one,
-- fits words, and the number of the next segment fits a word. Then a crash of the machine at any
-- moment before the next write leaves files from which Open rebuilds the log with the batch's
-- entries and its hard state, as AppendEntries and SetHardState of the store in memory leave them.
pub persist-Survives :
    {s : Storage} {d : Directory} (rd : Ready)
    → Run s d
    → s.seg_seq + 1 < 2 ^ 64
    → rd.snapshot ≡ none
    → rd.must_sync ≡ true
    → EntriesFit s rd.entries
    → StateFits rd.hard_state
    → (s' : Storage) × (d' : Directory) × (m : Mem.Storage) × (persist rd (calm s d)
        ≡ some (ok tt, calm s' d'))
      × (Mem.append_entries (mem_of s) rd.entries ≡ some (m, none))
      × Survives s' d' (with_state m rd.hard_state)
unfolding persist_log sync_if
persist-Survives {s} {d} rd run word no_snap durable fit fits =
    let (t, ran, run_t, seq_t, appended) = persist_entries-Run s d rd.entries run fit in
    let (u, ran_u, run_u, seq_u, state) = persist_hard_state-Run t d rd.hard_state run_t fits in
    let (s', d', synced, survives) = synced_survive run_u (omega (arith, seq_t, seq_u)) in
    (
      s',
      d',
      mem_of t,
      persist-persist_log rd (calm s d) no_snap ∙ rw ran (rw ran_u (rw durable (ap some synced))),
      appended,
      λ m. let (v, e, opening, same) = survives m in (v, e, opening, same ∙ state),
    )
