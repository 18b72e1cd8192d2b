-- ===== src/Storage/Disk/Records/Redo.antt =====
-- storage/disk/wal.go: the log as a list of records, and what their replay leaves.
use parallax_kv.Base.{
  ◌+◌, ◌^◌, ◌<◌, ◌≤◌, ◌≡◌, refl, sym, ap, ◌∙◌, false, List, [], ◌∷◌, ◌++◌, append_assoc, Bytes,
  Outcome, ok, ok-injective, and_then, and_then-eq-ok, arith, length, length-append,
  length-be_bytes, nat_eq,
}
use parallax_kv.Raft.Types.{Entry, HardState, SnapshotMetadata}
use parallax_kv.Storage.Disk.{Storage, DiskError}
use parallax_kv.Storage.Disk.Framing.{
  encode_entry, encode_hard_state, encode_truncate_suffix, frame, sanity_max_payload,
}
use parallax_kv.Storage.Disk.Framing.RoundTrip.{
  IsEncodable, IsPayload, length-frame, decode-encode_entry, decode-encode_hard_state,
  decode-encode_truncate_suffix,
}
use parallax_kv.Storage.Disk.Records.{
  apply_record, apply_typed, apply_entry_record, truncate_suffix, settle,
}

pub data Record : Type 0 where
  append_one : Entry → Record
  set_state : HardState → Record
  truncate_above : SnapshotMetadata → Record

unfoldable pub encode : Record → Bytes
encode (append_one e) = encode_entry e
encode (set_state st) = encode_hard_state st
encode (truncate_above meta) = encode_truncate_suffix meta

-- A record whose numbers fit their fields, and whose frame is within the bound of the reader.
abbrev pub IsSound : Record → Type 0
IsSound (append_one e) = IsEncodable e × (22 + length e.payload ≤ sanity_max_payload)
IsSound (set_state st) = (st.term < 2 ^ 64) × (st.vote < 2 ^ 64) × (st.commit < 2 ^ 64)
IsSound (truncate_above meta) = (meta.index < 2 ^ 64) × (meta.term < 2 ^ 64)

abbrev pub AllSound : List Record → Type 0
AllSound [] = Unit
AllSound (r ∷ rs) = IsSound r × AllSound rs

pub AllSound-append : (rs qs : List Record) → AllSound rs → AllSound qs → AllSound (rs ++ qs)
AllSound-append [] qs h k = k
AllSound-append (r ∷ rs) qs h k = (h.0, AllSound-append rs qs h.1 k)

unfoldable pub redo : Storage → Record → Outcome DiskError Storage
redo s (append_one e) = apply_entry_record s e
redo s (set_state st) = ok (record s { hard_state = st })
redo s (truncate_above meta) = ok (settle meta (truncate_suffix s meta.index))

-- the records one after the other, up to the first that does not apply
unfoldable pub redo_all : Storage → List Record → Outcome DiskError Storage
redo_all s [] = ok s
redo_all s (r ∷ rs) = and_then (redo s r) λ s'. redo_all s' rs

-- the bytes of the log
unfoldable pub log_bytes : List Record → Bytes
log_bytes [] = []
log_bytes (r ∷ rs) = frame (encode r) ++ log_bytes rs

pub log_bytes-append : (rs qs : List Record) → log_bytes (rs ++ qs) ≡ log_bytes rs ++ log_bytes qs
unfolding log_bytes
log_bytes-append [] qs = refl
log_bytes-append (r ∷ rs) qs =
    ap (λ b. frame (encode r) ++ b) (log_bytes-append rs qs)
    ∙ sym (append_assoc (frame (encode r)) _ _)

pub redo_all-append :
    (s s' : Storage) (rs qs : List Record)
    → redo_all s rs ≡ ok s'
    → redo_all s (rs ++ qs) ≡ redo_all s' qs
unfolding redo_all
redo_all-append s s' [] qs h = ap (λ t. redo_all t qs) (ok-injective h)
redo_all-append s s' (r ∷ rs) qs h =
    let (t, first, later) = and_then-eq-ok (redo s r) (λ t. redo_all t rs) h in
    rw (first, and_then) (redo_all-append t s' rs qs later)

-- A log that applies, applies up to any record of it.
pub redo_all-split :
    (s s' : Storage) (rs qs : List Record)
    → redo_all s (rs ++ qs) ≡ ok s'
    → (t : Storage) × (redo_all s rs ≡ ok t) × (redo_all t qs ≡ ok s')
unfolding redo_all
redo_all-split s s' [] qs h = (s, refl, h)
redo_all-split s s' (r ∷ rs) qs h =
    let (t, first, later) = and_then-eq-ok (redo s r) (λ t. redo_all t (rs ++ qs)) h in
    let (u, front, back) = redo_all-split t s' rs qs later in
    (u, ap (λ o. and_then o λ t. redo_all t rs) first ∙ front, back)

pub AllSound-split : (rs qs : List Record) → AllSound (rs ++ qs) → AllSound rs × AllSound qs
AllSound-split [] qs h = (tt, h)
AllSound-split (r ∷ rs) qs h = let (k, l) = AllSound-split rs qs h.1 in ((h.0, k), l)

-- Every record takes up bytes.
pub length-log_bytes : (rs : List Record) → length rs ≤ length (log_bytes rs)
unfolding log_bytes
length-log_bytes [] = omega arith
length-log_bytes (r ∷ rs) = omega (
  arith,
  length-append (frame (encode r)) (log_bytes rs),
  length-frame (encode r),
  length-log_bytes rs,
)

pub encode-IsPayload : (r : Record) → IsSound r → IsPayload (encode r)
unfolding encode encode_entry encode_hard_state encode_truncate_suffix
encode-IsPayload (append_one e) h =
    let fits = h.1 in
    record { nonempty = omega arith; bound = simp (length-append, length-be_bytes) (omega arith) }
encode-IsPayload (set_state st) h = record {
  nonempty = omega arith;
  bound = simp (length-append, length-be_bytes) (omega arith);
}
encode-IsPayload (truncate_above meta) h = record {
  nonempty = omega arith;
  bound = simp (length-append, length-be_bytes) (omega arith);
}

-- applyRecord does to a record's payload what the record says.
pub apply_record-encode :
    (s : Storage) (r : Record) → IsSound r → apply_record s (encode r) ≡ redo s r
unfolding apply_record apply_typed encode redo encode_entry encode_hard_state encode_truncate_suffix
apply_record-encode s (append_one e) h = ground (arith, decode-encode_entry e h.0)
apply_record-encode s (set_state st) h = ground (arith, decode-encode_hard_state st h.0 h.1 h.2)
apply_record-encode s (truncate_above meta) h =
    ground (arith, decode-encode_truncate_suffix meta h.0 h.1)

-- A replay changes the hard state and the entries, if no truncation is pending.
pub record IsReplay (s s' : Storage) : Type 0 where
  pub rest : s' ≡ record s { hard_state = s'.hard_state; entries = s'.entries }
  pub settled : s'.snapshot_truncation_pending ≡ false

redo-IsReplay :
    (s : Storage) (r : Record) {s' : Storage}
    → s.snapshot_truncation_pending ≡ false
    → redo s r ≡ ok s'
    → IsReplay s s'
unfolding redo apply_entry_record truncate_suffix settle
redo-IsReplay s (append_one e) p h = record { rest = ground arith; settled = ground arith }
redo-IsReplay s (set_state st) p h = record { rest = ground arith; settled = ground arith }
redo-IsReplay s (truncate_above meta) p h = record { rest = ground arith; settled = ground arith }

pub redo_all-IsReplay :
    (s s' : Storage) (rs : List Record)
    → s.snapshot_truncation_pending ≡ false
    → redo_all s rs ≡ ok s'
    → IsReplay s s'
unfolding redo_all
redo_all-IsReplay s s' [] p h = record { rest = cc; settled = cc }
redo_all-IsReplay s s' (r ∷ rs) p h =
    let (t, first, later) = and_then-eq-ok (redo s r) (λ t. redo_all t rs) h in
    let one = redo-IsReplay s r p first in
    let all = redo_all-IsReplay t s' rs one.settled later in
    record { rest = cc (one.rest, all.rest); settled = all.settled }
