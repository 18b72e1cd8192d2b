-- ===== src/Kv/Command.antt =====
-- kv/command.go: the commands that enter the Raft log, their results, and their encoding.
pub mod RoundTrip
pub mod Valid
use parallax_kv.Base.{
  ℕ, ◌≡◌, Bool, true, false, Option, none, some, [], ◌∷◌, ◌++◌, ◌||◌, Bytes, Outcome, ok, err, ltb,
  ◌==◌, nat_eq, if◌then◌else◌,
}
use parallax_kv.Kv.Codec.{
  DecodeError, unknown_version, invalid_op, append_uint64, append_string, append_opt_bytes, Decoder,
  ◌>>=◌, pure, fail, byte, uint64, string, opt_bytes, finish,
}

-- `op_other n` is a byte that no constant of the source names.
pub data OpType : Type 0 where
  op_invalid op_get op_put op_delete op_cas : OpType
  op_other : ℕ → OpType

pub record Command : Type 0 where
  pub client_id : ℕ
  pub seq : ℕ
  pub op : OpType
  pub key : Bytes
  pub value : Option Bytes
  pub expect : Option Bytes

-- `status_other n` is a byte that no constant of the source names; a snapshot may hold one.
pub data Status : Type 0 where
  status_ok status_not_found status_cas_mismatch status_stale_seq : Status
  status_other : ℕ → Status

pub record Result : Type 0 where
  pub status : Status
  pub value : Option Bytes
  pub version : ℕ

abbrev pub command_encoding_version : ℕ
command_encoding_version = 1

-- byte(c.Op)
abbrev pub op_byte : OpType → ℕ
op_byte op_invalid = 0
op_byte op_get = 1
op_byte op_put = 2
op_byte op_delete = 3
op_byte op_cas = 4
op_byte (op_other n) = n

-- OpType(op)
abbrev pub op_of_byte : ℕ → OpType
op_of_byte n =
    if n == 0
    then op_invalid
    else if n == 1
    then op_get
    else if n == 2
    then op_put
    else if n == 3
    then op_delete
    else if n == 4
    then op_cas
    else op_other n

unfoldable pub encode_command : Command → Bytes
encode_command c =
    append_opt_bytes
      (append_opt_bytes
        (append_string
          (append_uint64 (append_uint64 (command_encoding_version ∷ []) c.client_id) c.seq
            ++ op_byte c.op ∷ [])
          c.key)
        c.value)
      c.expect

-- The tests of DecodeCommand, each before the reads that follow it.
check_version : ℕ → Decoder (Unit {0})
check_version version =
    if version == command_encoding_version then pure tt else fail unknown_version

check_op : ℕ → Decoder (Unit {0})
check_op op = if ltb op 1 || ltb 4 op then fail invalid_op else pure tt

unfoldable pub read_command : Decoder Command
unfolding check_version check_op
read_command = do
  version ← byte
  _ ← check_version version
  client_id ← uint64
  seq ← uint64
  op ← byte
  _ ← check_op op
  key ← string
  value ← opt_bytes
  expect ← opt_bytes
  _ ← finish
  pure (record {
    client_id = client_id;
    seq = seq;
    op = op_of_byte op;
    key = key;
    value = value;
    expect = expect;
  })

unfoldable pub decode_command : Bytes → Outcome DecodeError Command
unfolding read_command
decode_command input = elim (read_command input) [ ok (c, rest) ↦ ok c | err e ↦ err e ]
