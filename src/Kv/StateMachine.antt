-- ===== src/Kv/StateMachine.antt =====
-- kv/kv.go: the key-value store with its session table. A `[]byte` is a value here, so that
-- bytes.Clone and Result.clone, which keep slices from being shared, are the identity.
pub mod Sessions
pub mod ExactlyOnce
pub mod Snapshot
pub mod SameState
pub mod Total
mod Tests
use parallax_kv.Base.{
  ℕ, zero, suc, ◌/◌, ◌≡◌, Bool, true, false, Option, none, some, List, [], ◌∷◌, ◌++◌, Bytes,
  Outcome, ok, err, length, ltb, add64, leb, sort_by, bytes_leb, ◌==◌, nat_eq, bytes_eq,
  if◌then◌else◌,
}
use parallax_kv.Base.GoMap
use parallax_kv.Base.GoMap.{GoMap}
use parallax_kv.Kv.Codec.{
  DecodeError, unknown_version, bad_count, append_uint64, append_string, append_opt_bytes, Decoder,
  ◌>>=◌, pure, fail, byte, uint64, string, opt_bytes, finish, remaining,
}
use parallax_kv.Kv.Command.{
  OpType, op_get, op_put, op_delete, op_cas, Command, Status, status_ok, status_not_found,
  status_cas_mismatch, status_stale_seq, status_other, Result,
}

pub record ValueRecord : Type 0 where
  pub value : Option Bytes
  pub version : ℕ

pub record Session : Type 0 where
  pub last_seq : ℕ
  pub last_result : Result

pub record StateMachine : Type 0 where
  pub kvs : GoMap Bytes ValueRecord
  pub sessions : GoMap ℕ Session

abbrev pub new_state_machine : StateMachine
new_state_machine = record { kvs = GoMap.empty; sessions = GoMap.empty }

-- Result{Status: s}, and with the current record of the key
abbrev pub bare : Status → Result
bare s = record { status = s; value = none; version = 0 }

abbrev pub showing : Status → ValueRecord → Result
showing s rec = record { status = s; value = rec.value; version = rec.version }

-- m.data[key].Version, 0 if the key is absent
abbrev pub version_of : Option ValueRecord → ℕ
version_of none = 0
version_of (some rec) = rec.version

-- the bytes that bytes.Equal and string() see: nil has none
abbrev pub contents : Option Bytes → Bytes
contents none = []
contents (some b) = b

get_result : Option ValueRecord → Result
get_result none = bare status_not_found
get_result (some rec) = showing status_ok rec

unfoldable pub get : StateMachine → Bytes → Result
unfolding get_result
get m key = get_result (GoMap.get m.kvs key)

-- m.data[cmd.Key] = a record with the next version, and the reply
unfoldable pub store : StateMachine → Command → Result × StateMachine
store m cmd =
    let version = add64 (version_of (GoMap.get m.kvs cmd.key)) 1 in
    (
      record { status = status_ok; value = none; version = version },
      record m { kvs = GoMap.put m.kvs cmd.key (record { value = cmd.value; version = version }) },
    )

unfoldable pub cas_on :
    StateMachine → Command → Option ValueRecord → Option Bytes → Result × StateMachine
unfolding store
cas_on m cmd (some cur) none = (showing status_cas_mismatch cur, m)
cas_on m cmd none none = store m cmd
cas_on m cmd none (some expect) = (bare status_cas_mismatch, m)
cas_on m cmd (some cur) (some expect) =
    if contents cur.value == expect then store m cmd else (showing status_cas_mismatch cur, m)

unfoldable pub cas : StateMachine → Command → Result × StateMachine
unfolding cas_on
cas m cmd = cas_on m cmd (GoMap.get m.kvs cmd.key) cmd.expect

unfoldable pub remove : StateMachine → Command → Option ValueRecord → Result × StateMachine
remove m cmd none = (bare status_not_found, m)
remove m cmd (some rec) = (bare status_ok, record m { kvs = GoMap.delete m.kvs cmd.key })

-- the `switch` on the operation; `none` is the panic of its default
unfoldable pub dispatch : OpType → StateMachine → Command → Option (Result × StateMachine)
unfolding get store cas remove
dispatch op_get m cmd = some (get m cmd.key, m)
dispatch op_put m cmd = some (store m cmd)
dispatch op_delete m cmd = some (remove m cmd (GoMap.get m.kvs cmd.key))
dispatch op_cas m cmd = some (cas m cmd)
dispatch _ m cmd = none

unfoldable pub execute : StateMachine → Command → Option (Result × StateMachine)
unfolding dispatch
execute m cmd = dispatch cmd.op m cmd

-- m.sessions[cmd.ClientID] = Session{cmd.Seq, res}
record_session : Command → Result × StateMachine → Result × StateMachine
record_session cmd (res, m) = (
  res,
  record m {
    sessions =
        GoMap.put m.sessions cmd.client_id (record { last_seq = cmd.seq; last_result = res });
  },
)

after_execute : Command → Option (Result × StateMachine) → Option (Result × StateMachine)
unfolding record_session
after_execute cmd none = none
after_execute cmd (some r) = some (record_session cmd r)

apply_new : StateMachine → Command → Option (Result × StateMachine)
unfolding after_execute
apply_new m cmd = after_execute cmd (execute m cmd)

with_session : StateMachine → Command → Option Session → Option (Result × StateMachine)
unfolding apply_new
with_session m cmd none = apply_new m cmd
with_session m cmd (some sess) =
    if cmd.seq == sess.last_seq
    then some (sess.last_result, m)
    else if ltb cmd.seq sess.last_seq
    then some (bare status_stale_seq, m)
    else apply_new m cmd

-- Apply; `none` is the panic of an invalid operation.
unfoldable pub apply : StateMachine → Command → Option (Result × StateMachine)
unfolding with_session
apply m cmd = with_session m cmd (GoMap.get m.sessions cmd.client_id)

unfoldable pub read : StateMachine → Bytes → Result
read m key = get m key

unfoldable pub len : StateMachine → ℕ
len m = length m.kvs

abbrev pub snapshot_encoding_version : ℕ
snapshot_encoding_version = 1

-- byte(status) and Status(byte)
abbrev pub status_byte : Status → ℕ
status_byte status_ok = 0
status_byte status_not_found = 1
status_byte status_cas_mismatch = 2
status_byte status_stale_seq = 3
status_byte (status_other n) = n

abbrev pub status_of_byte : ℕ → Status
status_of_byte n =
    if n == 0
    then status_ok
    else if n == 1
    then status_not_found
    else if n == 2
    then status_cas_mismatch
    else if n == 3
    then status_stale_seq
    else status_other n
