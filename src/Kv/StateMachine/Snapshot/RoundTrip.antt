-- ===== src/Kv/StateMachine/Snapshot/RoundTrip.antt =====
-- Restore after Snapshot: the state machine that comes back answers every lookup as before.
use parallax_kv.Base.{
  ℕ, ◌/◌, ◌%◌, ◌^◌, ◌<◌, ◌≤◌, ◌≡◌, refl, ◌∙◌, Option, none, some, List, [], ◌∷◌, ◌++◌, append_assoc,
  append-nil, Bytes, ok, length, length-append, be_bytes, length-be_bytes, arith, leb, u64, sort_by,
  bytes_leb, nat_eq, bytes_eq,
}
use parallax_kv.Base.GoMap
use parallax_kv.Base.GoMap.{GoMap, keys}
use parallax_kv.Kv.Codec.{append_uint64, byte, finish, ◌>>=◌}
use parallax_kv.Kv.Codec.RoundTrip.{
  string_code, opt_code, Fits, append_string-eq, append_opt_bytes-eq, uint64-be_bytes,
  string-string_code, opt_bytes-opt_code,
}
use parallax_kv.Kv.StateMachine.{ValueRecord, Session, StateMachine, status_byte, status_of_byte}
use parallax_kv.Kv.StateMachine.Snapshot.{
  get_or, read_entries, zero_session, zero_record, append_session, append_record, snapshot,
  read_session, read_record, check_count, read_snapshot, restore,
}
use parallax_kv.Kv.StateMachine.Snapshot.Tables.{
  put_all, get-put_all-keys, at_keys, length-sort_by, codes, emit-eq, read_entries-codes,
  width-codes,
}

-- Numbers and lengths that fit their fields.
pub record SessionFits (id : ℕ) (s : Session) : Type 0 where
  pub id_fits : id < 2 ^ 64
  pub seq_fits : s.last_seq < 2 ^ 64
  pub status_known : status_of_byte (status_byte s.last_result.status) ≡ s.last_result.status
  pub value_fits : Fits s.last_result.value
  pub version_fits : s.last_result.version < 2 ^ 64

pub record RecordFits (k : Bytes) (rec : ValueRecord) : Type 0 where
  pub key_fits : length k < 2 ^ 32
  pub value_fits : Fits rec.value
  pub version_fits : rec.version < 2 ^ 64

pub record IsStorable (m : StateMachine) : Type 0 where
  pub sessions : (id : ℕ) (s : Session) → GoMap.get m.sessions id ≡ some s → SessionFits id s
  pub kvs : (k : Bytes) (rec : ValueRecord) → GoMap.get m.kvs k ≡ some rec → RecordFits k rec
  pub session_count : length (keys m.sessions) < 2 ^ 64
  pub key_count : length (keys m.kvs) < 2 ^ 64

session_code : ℕ → Session → Bytes
session_code id s =
    be_bytes 8 id
    ++ (be_bytes 8 s.last_seq
        ++ (status_byte s.last_result.status ∷ opt_code s.last_result.value
            ++ be_bytes 8 s.last_result.version))

record_code : Bytes → ValueRecord → Bytes
record_code k rec = string_code k ++ (opt_code rec.value ++ be_bytes 8 rec.version)

append_session-eq :
    (buf : Bytes) (id : ℕ) (s : Session) → append_session buf id s ≡ buf ++ session_code id s
unfolding append_session append_uint64 session_code
append_session-eq buf id s = simp (append_opt_bytes-eq, append_assoc)

append_record-eq :
    (buf k : Bytes) (rec : ValueRecord) → append_record buf k rec ≡ buf ++ record_code k rec
unfolding append_record append_uint64 record_code
append_record-eq buf k rec = simp (append_opt_bytes-eq, append_string-eq, append_assoc)

read_session-code :
    (id : ℕ) (s : Session) (rest : Bytes)
    → SessionFits id s
    → read_session (session_code id s ++ rest) ≡ ok ((id, s), rest)
unfolding read_session session_code byte
read_session-code id s rest h = simp append_assoc (
    rw (uint64-be_bytes id _ h.id_fits, read_session, ◌>>=◌)
      (rw (uint64-be_bytes s.last_seq _ h.seq_fits, ◌>>=◌)
        (rw (opt_bytes-opt_code s.last_result.value _ h.value_fits, ◌>>=◌)
          (rw (uint64-be_bytes s.last_result.version _ h.version_fits, ◌>>=◌)
            (rw h.status_known)))))

read_record-code :
    (k : Bytes) (rec : ValueRecord) (rest : Bytes)
    → RecordFits k rec
    → read_record (record_code k rec ++ rest) ≡ ok ((k, rec), rest)
unfolding read_record record_code
read_record-code k rec rest h = simp append_assoc (
    rw (← append_assoc (be_bytes 4 (length k % 4294967296)) k) (
      rw (string-string_code k _ h.key_fits, read_record, ◌>>=◌)
        (rw (opt_bytes-opt_code rec.value _ h.value_fits, ◌>>=◌)
          (rw (uint64-be_bytes rec.version _ h.version_fits, ◌>>=◌)))))

length-opt_code : (b : Option Bytes) → 1 ≤ length (opt_code b)
length-opt_code none = omega arith
length-opt_code (some b) = omega arith

session_width : (id : ℕ) (s : Session) → 26 ≤ length (session_code id s)
unfolding session_code
session_width id s = omega (
  arith,
  length-append {0},
  length-append (opt_code s.last_result.value) (be_bytes 8 s.last_result.version),
  length-be_bytes,
  length-opt_code s.last_result.value,
)

record_width : (k : Bytes) (rec : ValueRecord) → 13 ≤ length (record_code k rec)
unfolding record_code
record_width k rec = omega (arith, length-append {0}, length-be_bytes, length-opt_code rec.value)

check_count_ok :
    (width n : ℕ) (d : Bytes) → n ≤ length d / width → check_count width n d ≡ ok (tt, d)
unfolding check_count
check_count_ok width n d h = ground arith

-- A state machine laid out as its snapshot.
module _ (m : StateMachine) where
  abbrev session_at : ℕ → Session
  session_at id = get_or zero_session (GoMap.get m.sessions id)

  abbrev record_at : Bytes → ValueRecord
  record_at k = get_or zero_record (GoMap.get m.kvs k)

  abbrev ids : List ℕ
  ids = sort_by leb (keys m.sessions)

  abbrev ks : List Bytes
  ks = sort_by bytes_leb (keys m.kvs)

  session_codes : Bytes
  session_codes =
      codes append_session session_code read_session SessionFits append_session-eq read_session-code
        session_at ids

  record_codes : Bytes
  record_codes =
      codes append_record record_code read_record RecordFits append_record-eq read_record-code
        record_at ks

  layout : Bytes
  layout =
      1 ∷ be_bytes 8 (u64 (length ids))
      ++ (session_codes ++ (be_bytes 8 (u64 (length ks)) ++ (record_codes ++ [])))

  snapshot-eq : snapshot m ≡ layout
  unfolding snapshot layout session_codes record_codes append_uint64
  snapshot-eq =
      emit-eq append_record record_code read_record RecordFits append_record-eq read_record-code
        record_at ks _
      ∙ rw
          (emit-eq append_session session_code read_session SessionFits append_session-eq
            read_session-code session_at ids)
          (simp (append_assoc, append-nil))

  -- the state machine that Restore builds
  restored : StateMachine
  restored = record {
    kvs = put_all record_at ks GoMap.empty;
    sessions = put_all session_at ids GoMap.empty;
  }

  module _ (h : IsStorable m) where
    sessions_read :
        (rest : Bytes)
        → read_entries read_session (length ids) GoMap.empty (session_codes ++ rest)
          ≡ ok (put_all session_at ids GoMap.empty, rest)
    unfolding session_codes
    sessions_read rest =
        read_entries-codes append_session session_code read_session SessionFits append_session-eq
          read_session-code session_at ids GoMap.empty rest
          (at_keys zero_session leb m.sessions h.sessions)

    records_read :
        (rest : Bytes)
        → read_entries read_record (length ks) GoMap.empty (record_codes ++ rest)
          ≡ ok (put_all record_at ks GoMap.empty, rest)
    unfolding record_codes
    records_read rest =
        read_entries-codes append_record record_code read_record RecordFits append_record-eq
          read_record-code record_at ks GoMap.empty rest (at_keys zero_record bytes_leb m.kvs h.kvs)

    -- The guard against corrupt counts lets a snapshot's own counts pass.
    sessions_counted :
        (rest : Bytes)
        → check_count 26 (length ids) (session_codes ++ rest) ≡ ok (tt, session_codes ++ rest)
    unfolding session_codes
    sessions_counted rest = check_count_ok 26 (length ids) _ (
        omega (
          arith,
          length-append session_codes rest,
          width-codes append_session session_code read_session SessionFits append_session-eq
              read_session-code session_at 26 session_width ids,
        ))

    records_counted :
        (rest : Bytes)
        → check_count 13 (length ks) (record_codes ++ rest) ≡ ok (tt, record_codes ++ rest)
    unfolding record_codes
    records_counted rest = check_count_ok 13 (length ks) _ (
        omega (
          arith,
          length-append record_codes rest,
          width-codes append_record record_code read_record RecordFits append_record-eq
              read_record-code record_at 13 record_width ks,
        ))

    session_count_fits : u64 (length ids) ≡ length ids
    session_count_fits = omega (arith, length-sort_by leb (keys m.sessions), h.session_count)

    key_count_fits : u64 (length ks) ≡ length ks
    key_count_fits = omega (arith, length-sort_by bytes_leb (keys m.kvs), h.key_count)

    read_layout : read_snapshot layout ≡ ok (restored, [])
    unfolding read_snapshot layout byte finish restored
    read_layout =
        rw (session_count_fits, key_count_fits)
          (rw
            (
              uint64-be_bytes (length ids) _ (omega (arith, session_count_fits)),
              read_snapshot,
              ◌>>=◌,
            )
            (rw (sessions_counted _, ◌>>=◌)
              (rw (sessions_read _, ◌>>=◌)
                (rw (uint64-be_bytes (length ks) _ (omega (arith, key_count_fits)), ◌>>=◌)
                  (rw (records_counted _, ◌>>=◌) (rw (records_read _, ◌>>=◌)))))))

-- Restore of Snapshot's bytes returns no error, whatever state it replaces, and the state
-- machine that it leaves has the record of every key and the session of every client, for a
-- state whose numbers, lengths and counts fit their fields.
pub restore-snapshot :
    (old m : StateMachine)
    → IsStorable m
    → ((restore old (snapshot m)).1 ≡ none)
      × ((k : Bytes) → GoMap.get (restore old (snapshot m)).0.kvs k ≡ GoMap.get m.kvs k)
      × ((id : ℕ) → GoMap.get (restore old (snapshot m)).0.sessions id ≡ GoMap.get m.sessions id)
unfolding restore restored
restore-snapshot old m h =
    let e : restore old (snapshot m) ≡ (restored m, none) =
      rw (snapshot-eq m) (rw (read_layout m h, restore)) in
    rw e (
      refl,
      get-put_all-keys zero_record bytes_leb m.kvs,
      get-put_all-keys zero_session leb m.sessions,
    )
