-- ===== src/Storage/Disk/Log/Logged.antt =====
-- storage/disk/disk.go: the records that the operations buffer lead a replay to the mirror.
use parallax_kv.Base.{
  ℕ, zero, suc, ◌+◌, ◌-◌, ◌^◌, ◌<◌, ◌≤◌, ◌≡◌, refl, ap, sym, subst, ◌∙◌, true, none, some, List, [],
  ◌∷◌, ◌++◌, append_assoc, append-nil, ok, and_then, Bytes, arith, length, length-append,
  length-take, take, take_all, drop, leb, add64, sub64, nat_eq, Bool-cases, inl, inr,
}
use mathlib.Core.Option.{some-injective}
use parallax_kv.Raft.Types.{Entry, HardState}
use parallax_kv.Storage.Mem.{first_entry_index}
use parallax_kv.Storage.Mem.Append.{
  contiguous, contiguous-drop, last_entry_index-contiguous, first_entry_index-drop,
}
use parallax_kv.Storage.Disk.{Storage, offset}
use parallax_kv.Storage.Disk.Framing.{frame, append_frame}
use parallax_kv.Storage.Disk.Records.{apply_entry_record}
use parallax_kv.Storage.Disk.Records.Redo.{
  Record, append_one, set_state, encode, IsSound, AllSound, AllSound-append, redo, redo_all,
  redo_all-append, log_bytes,
}
use parallax_kv.Storage.Disk.Log.{append_entries, splice, buffer_entries, set_hard_state}

-- the records of entries
abbrev pub puts : List Entry → List Record
puts [] = []
puts (e ∷ es) = append_one e ∷ puts es

-- A replay of the records from the store `b`, which recovery starts with, leaves what `s` holds.
pub record IsLogged (b s : Storage) (rs : List Record) : Type 0 where
  pub snapshot : s.snapshot ≡ b.snapshot
  pub replayed : redo_all b rs ≡ ok (record b { hard_state = s.hard_state; entries = s.entries })
  pub sound : AllSound rs

buffer_entries-puts :
    (buf : Bytes) (es : List Entry) → buffer_entries buf es ≡ buf ++ log_bytes (puts es)
unfolding buffer_entries append_frame log_bytes encode
buffer_entries-puts buf [] = sym (append-nil buf)
buffer_entries-puts buf (e ∷ es) =
    buffer_entries-puts (append_frame buf (encode (append_one e))) es
    ∙ append_assoc buf (frame (encode (append_one e))) (log_bytes (puts es))

-- An entry at the place behind the first n ones.
redo-append_one :
    (t : Storage) (e : Entry) (n : ℕ)
    → e.index < 2 ^ 64
    → e.index ≡ offset t + n + 1
    → n ≤ length t.entries
    → redo t (append_one e) ≡ ok (record t { entries = take n t.entries ++ e ∷ [] })
unfolding redo apply_entry_record
redo-append_one t e n word place within =
    let pos : sub64 e.index (add64 (offset t) 1) ≡ n = omega arith in rw pos (ground arith)

-- Entries behind the end of the log.
pub redo_dense :
    (es : List Entry) (t : Storage)
    → AllSound (puts es)
    → contiguous (offset t + length t.entries + 1) es ≡ true
    → redo_all t (puts es) ≡ ok (record t { entries = t.entries ++ es })
unfolding contiguous redo_all
redo_dense [] t h c = ap (λ l. ok (record t { entries = l })) (sym (append-nil t.entries))
redo_dense (e ∷ es) t h c =
    let t' = record t { entries = t.entries ++ e ∷ [] } in
    let size = length-append t.entries (e ∷ []) in
    let whole : take (length t.entries) t.entries ≡ t.entries = take_all t.entries in
    let first : redo t (append_one e) ≡ ok t' =
      redo-append_one t e (length t.entries) h.0.0.index (ground arith) (omega arith)
      ∙ ap (λ l. ok (record t { entries = l ++ e ∷ [] })) whole in
    rw (first, and_then)
      (redo_dense es t' h.1 (ground (arith, size))
        ∙ ap (λ l. ok (record t { entries = l })) (append_assoc t.entries (e ∷ []) es))

redo_puts :
    (e : Entry) (es : List Entry) (t : Storage)
    → AllSound (puts (e ∷ es))
    → contiguous e.index (e ∷ es) ≡ true
    → offset t < e.index
    → e.index ≤ offset t + length t.entries + 1
    → redo_all t (puts (e ∷ es))
      ≡ ok (record t { entries = take (e.index - offset t - 1) t.entries ++ e ∷ es })
unfolding contiguous redo_all
redo_puts e es t h c lo hi =
    let n = e.index - offset t - 1 in
    let t' = record t { entries = take n t.entries ++ e ∷ [] } in
    let size : length t'.entries ≡ n + 1 =
      omega (arith, length-append (take n t.entries) (e ∷ []), length-take n t.entries) in
    let first : redo t (append_one e) ≡ ok t' =
      redo-append_one t e n h.0.0.index (omega arith) (omega arith) in
    let next : contiguous (offset t' + length t'.entries + 1) es ≡ true =
      ap (λ k. contiguous k es) {y = e.index + 1} (omega arith) ∙ ground arith in
    rw (first, and_then)
      (redo_dense es t' h.1 next
        ∙ ap (λ l. ok (record t { entries = l })) (append_assoc (take n t.entries) (e ∷ []) es))

pub AllSound-drop : (n : ℕ) (es : List Entry) → AllSound (puts es) → AllSound (puts (drop n es))
AllSound-drop zero es h = h
AllSound-drop (suc n) [] h = h
AllSound-drop (suc n) (e ∷ es) h = AllSound-drop n es h.1

-- `s'` is `s` after an operation that has buffered the records `news`: they are behind those of
-- the log, whose replay leads to the new mirror. Nothing else has changed.
pub record Logs (b s : Storage) (rs news : List Record) (s' : Storage) : Type 0 where
  pub buffered : s'.buf ≡ s.buf ++ log_bytes news
  pub logged : IsLogged b s' (rs ++ news)
  pub rest : s' ≡ record s { hard_state = s'.hard_state; entries = s'.entries; buf = s'.buf }

-- An operation that did nothing.
Logs-refl : (b s : Storage) (rs : List Record) → IsLogged b s rs → Logs b s rs [] s
unfolding log_bytes
Logs-refl b s rs h = record {
  buffered = sym (append-nil s.buf);
  logged = subst (IsLogged b s) (sym (append-nil rs)) h;
  rest = refl;
}

-- The entries that follow the log, or overwrite a suffix of it, in their place.
splice-Logs :
    (b s : Storage) (rs : List Record) (e : Entry) (es : List Entry)
    → IsLogged b s rs
    → AllSound (puts (e ∷ es))
    → contiguous e.index (e ∷ es) ≡ true
    → offset s < e.index
    → e.index ≤ offset s + length s.entries + 1
    → (s' : Storage) × (splice s (e ∷ es) e.index ≡ (s', none)) × Logs b s rs (puts (e ∷ es)) s'
unfolding splice
splice-Logs b s rs e es h sound c lo hi =
    let n = e.index - offset s - 1 in
    let word = sound.0.0.index in
    let pos : sub64 e.index (add64 (offset s) 1) ≡ n = omega arith in
    let t = record b { hard_state = s.hard_state; entries = s.entries } in
    let base : offset t ≡ offset s = ap (λ p. p.metadata.index) (sym h.snapshot) in
    let place : e.index - offset t - 1 ≡ n = omega arith in
    let redone = redo_puts e es t sound c (omega arith) (omega arith) in
    (
      record s { entries = take n s.entries ++ e ∷ es; buf = buffer_entries s.buf (e ∷ es) },
      rw pos (ground arith),
      record {
        buffered = buffer_entries-puts s.buf (e ∷ es);
        logged = record {
          snapshot = h.snapshot;
          replayed =
              redo_all-append b t rs (puts (e ∷ es)) h.replayed
              ∙ redone
              ∙ ap (λ k. ok (record t { entries = take k s.entries ++ e ∷ es })) place;
          sound = AllSound-append rs (puts (e ∷ es)) h.sound sound;
        };
        rest = refl;
      },
    )

-- The sliced entries, when the first ones are below the snapshot.
sliced-Logs :
    (b s : Storage) (rs : List Record) (es : List Entry)
    → IsLogged b s rs
    → AllSound (puts es)
    → contiguous (offset s + 1) es ≡ true
    → first_entry_index es ≡ some (offset s + 1)
    → (s' : Storage) × (news : List Record) × (splice s es (offset s + 1) ≡ (s', none))
      × Logs b s rs news s'
sliced-Logs b s rs [] h sound c f = cc
sliced-Logs b s rs (e ∷ es) h sound c f =
    let same : e.index ≡ offset s + 1 = some-injective _ _ f in
    let (s', done, logs) =
      splice-Logs b s rs e es h sound (ap (λ k. contiguous k (e ∷ es)) same ∙ c) (omega arith)
        (omega arith) in
    (s', puts (e ∷ es), ap (splice s (e ∷ es)) (sym same) ∙ done, logs)

-- AppendEntries of contiguous entries that leave no gap behind the log returns no error, and
-- buffers records behind which the log still replays to the mirror. The numbers of the entries
-- fit their fields.
pub append_entries-Logs :
    (b s : Storage) (rs : List Record) (e : Entry) (es : List Entry)
    → IsLogged b s rs
    → AllSound (puts (e ∷ es))
    → contiguous e.index (e ∷ es) ≡ true
    → e.index ≤ offset s + length s.entries + 1
    → offset s + 1 < 2 ^ 64
    → (s' : Storage) × (news : List Record) × (append_entries s (e ∷ es) ≡ some (s', none))
      × Logs b s rs news s'
unfolding append_entries
append_entries-Logs b s rs e es h sound c gap word =
    let last = last_entry_index-contiguous e es e.index c in
    elim (Bool-cases (leb (e.index + length es) (offset s))) [
      | inl below ↦ (s, [], ground (arith, last), Logs-refl b s rs h)
      | inr reaches ↦ elim (Bool-cases (leb e.index (offset s))) [
        | inl low ↦
            let n = offset s + 1 - e.index in
            let at_first : e.index + n ≡ offset s + 1 = ground arith in
            let first : first_entry_index (drop n (e ∷ es)) ≡ some (offset s + 1) =
              first_entry_index-drop n (e ∷ es) e.index c (ground arith) ∙ ap some at_first in
            let cut : sub64 (add64 (offset s) 1) e.index ≡ n = ground arith in
            let (s', news, done, logs) =
              sliced-Logs b s rs (drop n (e ∷ es)) h (AllSound-drop n (e ∷ es) sound)
                (ap (λ k. contiguous k (drop n (e ∷ es))) (sym at_first)
                  ∙ contiguous-drop n (e ∷ es) e.index c)
                first in
            (s', news, rw cut (ground (arith, last, first, done)), logs)
        | inr high ↦
            let (s', done, logs) = splice-Logs b s rs e es h sound c (ground arith) gap in
            (s', puts (e ∷ es), ground (arith, last, done), logs)
      ]
    ]

-- SetHardState buffers a record behind which the log still replays to the mirror.
pub set_hard_state-Logs :
    (b s : Storage) (rs : List Record) (st : HardState)
    → IsLogged b s rs
    → IsSound (set_state st)
    → Logs b s rs (set_state st ∷ []) (set_hard_state s st)
unfolding set_hard_state append_frame log_bytes encode redo_all redo
set_hard_state-Logs b s rs st h sound = record {
  buffered = ap (λ f. s.buf ++ f) (sym (append-nil (frame (encode (set_state st)))));
  logged = record {
    snapshot = h.snapshot;
    replayed = redo_all-append b _ rs (set_state st ∷ []) h.replayed;
    sound = AllSound-append rs (set_state st ∷ []) h.sound (sound, tt);
  };
  rest = refl;
}
