-- ===== src/Raft/Log.antt =====
-- raft/log.go, `raftLog`: the log as the core sees it, the stored prefix and the unstable tail, with
-- the committed and applied watermarks. The outer option of a result is a panic.
pub mod Watermarks
use parallax_kv.Base.{
  ℕ, ◌+◌, min, max, Bool, true, false, ◌&&◌, ◌||◌, Option, none, some, List, [], ◌∷◌, ◌++◌, Outcome,
  ok, err, length, ltb, leb, add64, sub64, u64, ◌==◌, nat_eq, if◌then◌else◌,
}
use parallax_kv.Base.Panics
use parallax_kv.Base.Panics.{◌>>=◌, slice_from}
use parallax_kv.Raft.Types.{Entry, Snapshot}
use parallax_kv.Raft.LogStorage.{StorageError, compacted, unavailable, failed, LogStorage}
use parallax_kv.Raft.Unstable
use parallax_kv.Raft.Unstable.{Unstable}

pub record RaftLog : Type 0 where
  pub storage : LogStorage
  pub unstable : Unstable
  pub committed : ℕ
  pub applied : ℕ

-- a read whose error is a panic
abbrev pub must {ℓ} : {A : Type ℓ} → Outcome StorageError A → Option A
must (ok a) = some a
must (err e) = none

unfoldable pub new_log : LogStorage → Outcome StorageError RaftLog
new_log storage = elim storage.first_index [
  | err e ↦ err e
  | ok first ↦ elim storage.last_index [
    | err e ↦ err e
    | ok last ↦ ok (record {
      storage = storage;
      unstable = record { snapshot = none; entries = []; offset = add64 last 1 };
      committed = sub64 first 1;
      applied = sub64 first 1;
    })
  ]
]

abbrev pub or_stored : Option ℕ → Outcome StorageError ℕ → Option ℕ
or_stored (some i) r = some i
or_stored none r = must r

unfoldable pub first_index : RaftLog → Option ℕ
first_index l = or_stored (Unstable.maybe_first_index l.unstable) l.storage.first_index

unfoldable pub last_index : RaftLog → Option ℕ
last_index l = or_stored (Unstable.maybe_last_index l.unstable) l.storage.last_index

-- ErrCompacted and ErrUnavailable are returned, any other error is a panic.
abbrev pub stored_term : Outcome StorageError ℕ → Option (Outcome StorageError ℕ)
stored_term (err failed) = none
stored_term r = some r

abbrev pub buffered_or_stored : Option ℕ → Outcome StorageError ℕ → Option (Outcome StorageError ℕ)
buffered_or_stored (some t) r = some (ok t)
buffered_or_stored none r = stored_term r

unfoldable pub term : RaftLog → ℕ → Option (Outcome StorageError ℕ)
term l i = do
  first ← first_index l
  last ← last_index l
  let out = ltb i (sub64 first 1) || ltb last i
  let within = (do t ← Unstable.maybe_term l.unstable i; buffered_or_stored t (l.storage.term i))
  if out then some (ok 0) else within

unfoldable pub last_term : RaftLog → Option ℕ
last_term l = do last ← last_index l; t ← term l last; must t

abbrev pub term_is : ℕ → Outcome StorageError ℕ → Bool
term_is t (ok gt) = gt == t
term_is t (err e) = false

unfoldable pub match_term : RaftLog → ℕ → ℕ → Option Bool
match_term l i t = do gt ← term l i; some (term_is t gt)

-- append: the new log and its last index
unfoldable pub append : RaftLog → List Entry → Option (ℕ × RaftLog)
append l ents = do
  u ← Unstable.truncate_append l.unstable ents
  last ← last_index (record l { unstable = u })
  some (last, record l { unstable = u })

unfoldable pub find_conflict : RaftLog → List Entry → Option ℕ
find_conflict l [] = some 0
find_conflict l (e ∷ es) =
    let rest = find_conflict l es in
    do same ← match_term l e.index e.term; if same then rest else some e.index

unfoldable pub commit_to : RaftLog → ℕ → Option RaftLog
commit_to l tocommit =
    if ltb l.committed tocommit
    then (do
      last ← last_index l
      if ltb last tocommit then none else some (record l { committed = tocommit }))
    else some l

-- the `switch` of maybeAppend on the conflict
append_conflict : RaftLog → ℕ → List Entry → ℕ → Option RaftLog
append_conflict l index ents conflict =
    if conflict == 0 then some l else if leb conflict l.committed then none else (do
      new ← slice_from ents (sub64 conflict (add64 index 1))
      (last, l') ← append l new
      some l')

-- The index of the last new entry, or `none` if the preceding entry does not match.
unfoldable pub maybe_append : RaftLog → ℕ → ℕ → ℕ → List Entry → Option (Option ℕ × RaftLog)
unfolding append_conflict
maybe_append l index log_term committed ents = do
  same ← match_term l index log_term
  let spliced = (do
    conflict ← find_conflict l ents
    l' ← append_conflict l index ents conflict
    l'' ← commit_to l' (min committed (add64 index (length ents)))
    some (some (add64 index (length ents)), l''))
  if same then spliced else some (none, l)

unfoldable pub applied_to : RaftLog → ℕ → Option RaftLog
applied_to l i =
    if i == 0
    then some l
    else if ltb l.committed i || ltb i l.applied
    then none
    else some (record l { applied = i })

unfoldable pub stable_to : RaftLog → ℕ → ℕ → Option RaftLog
stable_to l i t = do u ← Unstable.stable_to l.unstable i t; some (record l { unstable = u })

unfoldable pub stable_snap_to : RaftLog → ℕ → RaftLog
stable_snap_to l i = record l { unstable = Unstable.stable_snap_to l.unstable i }

unfoldable pub restore : RaftLog → Snapshot → RaftLog
restore l s = record l {
  committed = s.metadata.index;
  applied = if ltb l.applied s.metadata.index then s.metadata.index else l.applied;
  unstable = Unstable.restore l.unstable s;
}

-- The two halves of slice: [lo, min(hi, offset)) of the storage, [max(lo, offset), hi) unstable.
stored_part : RaftLog → ℕ → ℕ → Outcome StorageError (List Entry)
stored_part l lo hi =
    if ltb lo l.unstable.offset then l.storage.entries lo (min hi l.unstable.offset) else ok []

unstable_part : RaftLog → ℕ → ℕ → Option (List Entry)
unstable_part l lo hi =
    if ltb l.unstable.offset hi
    then Panics.slice l.unstable.entries (sub64 (max lo l.unstable.offset) l.unstable.offset)
        (sub64 hi l.unstable.offset)
    else some []

join_parts :
    Outcome StorageError (List Entry)
    → Option (List Entry)
    → Option (Outcome StorageError (List Entry))
join_parts (err e) r = some (err e)
join_parts (ok se) r = do ue ← r; some (ok (se ++ ue))

both_parts : RaftLog → ℕ → ℕ → Option (Outcome StorageError (List Entry))
unfolding stored_part unstable_part join_parts
both_parts l lo hi = do
  last ← last_index l
  let hi' = if ltb (add64 last 1) hi then add64 last 1 else hi
  join_parts (stored_part l lo hi') (unstable_part l lo hi')

unfoldable pub slice : RaftLog → ℕ → ℕ → Option (Outcome StorageError (List Entry))
unfolding both_parts
slice l lo hi =
    if leb hi lo
    then some (ok [])
    else (do fi ← first_index l; if ltb lo fi then some (err compacted) else both_parts l lo hi)

unfoldable pub next_committed_ents : RaftLog → Option (List Entry)
next_committed_ents l =
    let lo = add64 l.applied 1 in
    let hi = add64 l.committed 1 in
    if leb hi lo then some [] else (do
      fi ← first_index l
      let lo' = if ltb lo fi then fi else lo
      let ents = (do r ← slice l lo' hi; must r)
      if leb hi lo' then some [] else ents)

unfoldable pub has_next_committed_ents : RaftLog → Option Bool
has_next_committed_ents l = do
  fi ← first_index l
  some (ltb (max (add64 l.applied 1) fi) (add64 l.committed 1))

unfoldable pub is_up_to_date : RaftLog → ℕ → ℕ → Option Bool
is_up_to_date l lasti t = do
  lt ← last_term l
  last ← last_index l
  some (ltb lt t || t == lt && leb last lasti)

-- t, _ := l.term(i)
abbrev pub or_zero : Outcome StorageError ℕ → ℕ
or_zero (ok t) = t
or_zero (err e) = 0

unfoldable pub maybe_commit : RaftLog → ℕ → ℕ → Option (Bool × RaftLog)
maybe_commit l max_index t =
    if ltb l.committed max_index
    then (do
      gt ← term l max_index
      let advanced = (do l' ← commit_to l max_index; some (true, l'))
      if or_zero gt == t then advanced else some (false, l))
    else some (false, l)
