-- ===== src/Kv/StateMachine/Tests.antt =====
-- Two clients of one store, a retry, and a snapshot.
use parallax_kv.Base.{
  ℕ, ◌≡◌, refl, Option, none, some, [], ◌∷◌, Bytes, arith, ok, subst, ◌==◌, nat_eq, bytes_eq,
  Bool-cases, inl, inr,
}
use mathlib.Core.Option.{some-injective}
use parallax_kv.Base.GoMap
use parallax_kv.Kv.Command.{
  Command, op_put, op_cas, Result, status_ok, encode_command, decode_command,
}
use parallax_kv.Kv.Command.RoundTrip.{IsEncodable, decode-encode_command}
use parallax_kv.Kv.StateMachine.{StateMachine, ValueRecord, Session, new_state_machine, apply}
use parallax_kv.Kv.StateMachine.ExactlyOnce.{apply_all, apply_once}
use parallax_kv.Kv.StateMachine.SameState.{replies, replies-restore}
use parallax_kv.Kv.StateMachine.Snapshot.{snapshot, restore}
use parallax_kv.Kv.StateMachine.Snapshot.RoundTrip.{
  IsStorable, SessionFits, RecordFits, restore-snapshot,
}

-- client 7 writes the key "a", client 8 swaps it, and client 7 tries again
abbrev first_put : Command
first_put = record {
  client_id = 7;
  seq = 1;
  op = op_put;
  key = 97 ∷ [];
  value = some (1 ∷ 2 ∷ []);
  expect = none;
}

abbrev swap : Command
swap = record {
  client_id = 8;
  seq = 1;
  op = op_cas;
  key = 97 ∷ [];
  value = none;
  expect = some (1 ∷ 2 ∷ []);
}

abbrev done_at : ℕ → Option Bytes → Result
done_at v b = record { status = status_ok; value = b; version = v }

abbrev written : StateMachine
written = record {
  kvs = (97 ∷ [], record { value = some (1 ∷ 2 ∷ []); version = 1 }) ∷ [];
  sessions = (7, record { last_seq = 1; last_result = done_at 1 none }) ∷ [];
}

abbrev swapped : StateMachine
swapped = record {
  kvs = (97 ∷ [], record { value = none; version = 2 }) ∷ [];
  sessions =
      (7, record { last_seq = 1; last_result = done_at 1 none })
      ∷ (8, record { last_seq = 1; last_result = done_at 2 none })
      ∷ [];
}

put_runs : apply new_state_machine first_put ≡ some (done_at 1 none, written)
unfolding apply GoMap.get parallax_kv.Kv.StateMachine.execute GoMap.put
put_runs = refl

swap_runs : apply_all written (swap ∷ []) ≡ some swapped
unfolding apply_all apply GoMap.get parallax_kv.Kv.StateMachine.execute GoMap.put
swap_runs = refl

apply_once_example : (r : Result) × (apply swapped first_put ≡ some (r, swapped))
apply_once_example = apply_once new_state_machine first_put (swap ∷ []) put_runs swap_runs

put-IsEncodable : IsEncodable first_put
put-IsEncodable = record {
  client_id = omega arith;
  seq = omega arith;
  op = (omega arith, omega arith, refl);
  key = omega arith;
  value = omega arith;
  expect = tt;
}

decode-encode_command_example : decode_command (encode_command first_put) ≡ ok first_put
decode-encode_command_example = decode-encode_command first_put put-IsEncodable

one_session : (id : ℕ) (s : Session) → GoMap.get written.sessions id ≡ some s → SessionFits id s
unfolding GoMap.get
one_session id s e = elim (Bool-cases (7 == id)) [
  | inl t ↦
      let here : 7 ≡ id = (nat_eq.eqb_iff 7 id).0 t in
      let it : record { last_seq = 1; last_result = done_at 1 none } ≡ s =
        some-injective _ _ (rw t at e) in
      subst (λ i. SessionFits i s) here
        (subst (SessionFits 7) it (record {
          id_fits = omega arith;
          seq_fits = omega arith;
          status_known = refl;
          value_fits = tt;
          version_fits = omega arith;
        }))
  | inr f ↦ cc (rw f at e)
]

one_record : (k : Bytes) (rec : ValueRecord) → GoMap.get written.kvs k ≡ some rec → RecordFits k rec
unfolding GoMap.get
one_record k rec e = elim (Bool-cases (97 ∷ [] == k)) [
  | inl t ↦
      let here : 97 ∷ [] ≡ k = (bytes_eq.eqb_iff (97 ∷ []) k).0 t in
      let it : record { value = some (1 ∷ 2 ∷ []); version = 1 } ≡ rec =
        some-injective _ _ (rw t at e) in
      subst (λ i. RecordFits i rec) here
        (subst (RecordFits (97 ∷ [])) it
          (record { key_fits = omega arith; value_fits = omega arith; version_fits = omega arith }))
  | inr f ↦ cc (rw f at e)
]

written-IsStorable : IsStorable written
written-IsStorable = record {
  sessions = one_session;
  kvs = one_record;
  session_count = omega arith;
  key_count = omega arith;
}

restore-snapshot_example :
    ((restore swapped (snapshot written)).1 ≡ none)
    × ((k : Bytes)
        → GoMap.get (restore swapped (snapshot written)).0.kvs k ≡ GoMap.get written.kvs k)
    × ((id : ℕ)
        → GoMap.get (restore swapped (snapshot written)).0.sessions id
          ≡ GoMap.get written.sessions id)
restore-snapshot_example = restore-snapshot swapped written written-IsStorable

replies-restore_example :
    replies (restore swapped (snapshot written)).0 (first_put ∷ swap ∷ [])
    ≡ replies written (first_put ∷ swap ∷ [])
replies-restore_example = replies-restore swapped written (first_put ∷ swap ∷ []) written-IsStorable
