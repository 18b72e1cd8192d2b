-- ===== src/Kv/StateMachine/Snapshot.antt =====
-- Snapshot and Restore of kv/kv.go. Each of their four loops runs over a map: `emit` and
-- `read_entries` are the two forms, and the loop's body is their argument.
pub mod Tables
pub mod RoundTrip
use parallax_kv.Base.{
  ℕ, zero, suc, ◌/◌, Option, none, some, List, [], ◌∷◌, ◌++◌, Bytes, Outcome, ok, err, length, ltb,
  leb, u64, sort_by, bytes_leb, Eq, ◌==◌, nat_eq, bytes_eq, if◌then◌else◌,
}
use parallax_kv.Base.GoMap
use parallax_kv.Base.GoMap.{GoMap, keys}
use parallax_kv.Kv.Codec.{
  DecodeError, unknown_version, bad_count, append_uint64, append_string, append_opt_bytes, Decoder,
  ◌>>=◌, pure, fail, byte, uint64, string, opt_bytes, finish, remaining,
}
use parallax_kv.Kv.StateMachine.{
  ValueRecord, Session, StateMachine, bare, snapshot_encoding_version, status_byte, status_of_byte,
}
use parallax_kv.Kv.Command.{status_ok}

-- m[k], the zero value if the key is absent
abbrev pub get_or {ℓ} : {V : Type ℓ} → V → Option V → V
get_or zero_value none = zero_value
get_or zero_value (some v) = v

module _ {ℓ κ} {K : Type ℓ} {V : Type κ} where
  -- for _, k := range ks { v := m[k]; add it to buf }
  unfoldable pub emit : (Bytes → K → V → Bytes) → (K → V) → List K → Bytes → Bytes
  emit add at [] buf = buf
  emit add at (k ∷ ks) buf = emit add at ks (add buf k (at k))

  -- for i := 0; i < n; i++ { read k and v; m[k] = v }
  unfoldable pub read_entries : ⦃e : Eq K⦄ → Decoder (K × V) → ℕ → GoMap K V → Decoder (GoMap K V)
  read_entries ⦃e⦄ entry zero m = pure m
  read_entries ⦃e⦄ entry (suc n) m = do (k, v) ← entry; read_entries entry n (GoMap.put m k v)

abbrev pub zero_session : Session
zero_session = record { last_seq = 0; last_result = bare status_ok }

abbrev pub zero_record : ValueRecord
zero_record = record { value = none; version = 0 }

unfoldable pub append_session : Bytes → ℕ → Session → Bytes
append_session buf id sess =
    append_uint64
      (append_opt_bytes
        (append_uint64 (append_uint64 buf id) sess.last_seq
          ++ status_byte sess.last_result.status ∷ [])
        sess.last_result.value)
      sess.last_result.version

unfoldable pub append_record : Bytes → Bytes → ValueRecord → Bytes
append_record buf k rec =
    append_uint64 (append_opt_bytes (append_string buf k) rec.value) rec.version

unfoldable pub snapshot : StateMachine → Bytes
snapshot m =
    let client_ids = sort_by leb (keys m.sessions) in
    let ks = sort_by bytes_leb (keys m.kvs) in
    let buf =
      emit append_session (λ id. get_or zero_session (GoMap.get m.sessions id)) client_ids
        (append_uint64 (snapshot_encoding_version ∷ []) (u64 (length client_ids))) in
    emit append_record (λ k. get_or zero_record (GoMap.get m.kvs k)) ks
      (append_uint64 buf (u64 (length ks)))

unfoldable pub read_session : Decoder (ℕ × Session)
read_session = do
  id ← uint64
  last_seq ← uint64
  status ← byte
  value ← opt_bytes
  version ← uint64
  pure (
    id,
    record {
      last_seq = last_seq;
      last_result = record { status = status_of_byte status; value = value; version = version };
    },
  )

unfoldable pub read_record : Decoder (Bytes × ValueRecord)
read_record = do
  key ← string
  value ← opt_bytes
  version ← uint64
  pure (key, record { value = value; version = version })

-- The guard on a count: each entry takes at least `width` bytes.
unfoldable pub check_count : ℕ → ℕ → Decoder (Unit {0})
check_count width n d = if ltb (remaining d / width) n then err bad_count else ok (tt, d)

unfoldable pub check_version : ℕ → Decoder (Unit {0})
check_version version =
    if version == snapshot_encoding_version then pure tt else fail unknown_version

unfoldable pub read_snapshot : Decoder StateMachine
unfolding check_version
read_snapshot = do
  version ← byte
  _ ← check_version version
  n_sessions ← uint64
  _ ← check_count 26 n_sessions
  sessions ← read_entries read_session n_sessions GoMap.empty
  n_keys ← uint64
  _ ← check_count 13 n_keys
  kvs ← read_entries read_record n_keys GoMap.empty
  _ ← finish
  pure (record { kvs = kvs; sessions = sessions })

-- On error the state machine is left as it was.
unfoldable pub restore : StateMachine → Bytes → StateMachine × Option DecodeError
restore m snap = elim (read_snapshot snap) [ ok (m', rest) ↦ (m', none) | err e ↦ (m, some e) ]
