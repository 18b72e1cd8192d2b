-- ===== src/Kv/Command/RoundTrip.antt =====
-- DecodeCommand after EncodeCommand.
use parallax_kv.Base.{
  ℕ, ◌^◌, ◌<◌, ◌≤◌, ◌≡◌, [], ◌∷◌, ◌++◌, append_assoc, append-nil, Bytes, ok, length, be_bytes,
  arith,
}
use parallax_kv.Kv.Codec.{append_uint64, byte, finish, ◌>>=◌}
use parallax_kv.Kv.Codec.RoundTrip.{
  string_code, opt_code, Fits, append_string-eq, append_opt_bytes-eq, uint64-be_bytes,
  string-string_code, opt_bytes-opt_code,
}
use parallax_kv.Kv.Command.{
  Command, op_byte, op_of_byte, encode_command, read_command, decode_command, check_op,
}

-- The commands that EncodeCommand is given: a client operation whose numbers and lengths fit
-- their fields.
pub record IsEncodable (c : Command) : Type 0 where
  pub client_id : c.client_id < 2 ^ 64
  pub seq : c.seq < 2 ^ 64
  pub op : (1 ≤ op_byte c.op) × (op_byte c.op ≤ 4) × (op_of_byte (op_byte c.op) ≡ c.op)
  pub key : length c.key < 2 ^ 32
  pub value : Fits c.value
  pub expect : Fits c.expect

layout : Command → Bytes
layout c =
    1 ∷ be_bytes 8 c.client_id
    ++ (be_bytes 8 c.seq
        ++ (op_byte c.op ∷ string_code c.key ++ (opt_code c.value ++ (opt_code c.expect ++ []))))

encode_command-eq : (c : Command) → encode_command c ≡ layout c
unfolding encode_command layout append_uint64
encode_command-eq c = simp (append_opt_bytes-eq, append_string-eq, append_assoc, append-nil)

check_op_ok : (n : ℕ) (d : Bytes) → 1 ≤ n → n ≤ 4 → check_op n d ≡ ok (tt, d)
unfolding check_op
check_op_ok n d h k = ground arith

read_layout : (c : Command) → IsEncodable c → read_command (layout c) ≡ ok (c, [])
unfolding read_command layout byte finish
read_layout c h =
    rw (uint64-be_bytes c.client_id _ h.client_id, read_command, ◌>>=◌)
      (rw (uint64-be_bytes c.seq _ h.seq, ◌>>=◌)
        (rw (check_op_ok (op_byte c.op) _ h.op.0 h.op.1, ◌>>=◌)
          (rw (string-string_code c.key _ h.key, ◌>>=◌)
            (rw (opt_bytes-opt_code c.value _ h.value, ◌>>=◌)
              (rw (opt_bytes-opt_code c.expect _ h.expect, ◌>>=◌) (rw h.op.2))))))

-- DecodeCommand of EncodeCommand's bytes is the command itself, nil and empty values told apart,
-- for every client operation whose numbers and lengths fit their fields.
pub decode-encode_command : (c : Command) → IsEncodable c → decode_command (encode_command c) ≡ ok c
unfolding decode_command
decode-encode_command c h = rw (encode_command-eq c) (rw (read_layout c h, decode_command))
