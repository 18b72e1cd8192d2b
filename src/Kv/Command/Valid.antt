-- ===== src/Kv/Command/Valid.antt =====
-- kv/command.go, DecodeCommand: which operations it lets through.
use parallax_kv.Base.{
  ℕ, ◌≡◌, refl, ap, ◌∙◌, subst, Bool, true, false, Bytes, Outcome, ok, err, ok-injective, nat_eq,
  arith,
}
use parallax_kv.Kv.Codec.{DecodeError, Decoder, ◌>>=◌, byte, uint64, string, opt_bytes, finish}
use parallax_kv.Kv.Command.{
  OpType, op_get, op_put, op_delete, op_cas, op_of_byte, Command, check_version, check_op,
  read_command, decode_command,
}

-- The operations that a client can ask for.
abbrev pub is_client_op : OpType → Bool
is_client_op op_get = true
is_client_op op_put = true
is_client_op op_delete = true
is_client_op op_cas = true
is_client_op _ = false

-- Every value that the decoder reads satisfies P.
record Yields {ℓ κ} {A : Type ℓ} (P : A → Type κ) (m : Decoder A) : Type (ℓ ⊔ κ) where
  at : (d : Bytes) (a : A) (d' : Bytes) → m d ≡ ok (a, d') → P a

module _ {ℓ κ ι} {A : Type ℓ} {B : Type κ} {P : B → Type ι} where
  Yields-bind_of :
      {Q : A → Type ι} (m : Decoder A) (f : A → Decoder B)
      → Yields Q m
      → ((a : A) → Q a → Yields P (f a))
      → Yields P (m >>= f)
  Yields-bind_of {Q} m f first h = record { at = λ d b d' e. of_result d b d' (m d) refl e }
    where
      of_result :
          (d : Bytes) (b : B) (d' : Bytes) (o : Outcome DecodeError (A × Bytes))
          → m d ≡ o
          → ◌≡◌ {A = Outcome DecodeError (B × Bytes)}
              (elim o [ ok (a, r) ↦ f a r | err e ↦ err e ])
              (ok (b, d'))
          → P b
      of_result d b d' (ok (a, r)) q e = (h a (first.at d a r q)).at r b d' e
      of_result d b d' (err x) q e = cc

Always : {A : Type 0} → A → Type 0
Always a = Unit {0}

Yields-any : {A : Type 0} (m : Decoder A) → Yields Always m
unfolding Always
Yields-any m = record { at = λ d a d' e. tt }

Yields-bind :
    {A : Type 0} {B : Type 0} {P : B → Type 0} (m : Decoder A) (f : A → Decoder B)
    → ((a : A) → Yields P (f a))
    → Yields P (m >>= f)
Yields-bind m f h = Yields-bind_of m f (Yields-any m) (λ a u. h a)

IsClientCommand : Command → Type 0
IsClientCommand c = is_client_op c.op ≡ true

check_op-Yields : (op : ℕ) → Yields (λ u. is_client_op (op_of_byte op) ≡ true) (check_op op)
unfolding check_op
check_op-Yields op = record { at = λ d u d' h. ground arith }

read_command-Yields : Yields IsClientCommand read_command
unfolding read_command IsClientCommand
read_command-Yields = Yields-bind byte _ (λ version. Yields-bind (check_version version) _ (λ u2.
    Yields-bind uint64 _ (λ client_id. Yields-bind uint64 _ (λ seq. Yields-bind byte _ (λ op.
      Yields-bind_of (check_op op) _ (check_op-Yields op) (λ u6 valid. Yields-bind string _ (λ key.
        Yields-bind opt_bytes _ (λ value. Yields-bind opt_bytes _ (λ expect.
          Yields-bind finish _ (λ u10. record {
            at = λ d c d' h.
                subst (λ (x : Command). is_client_op x.op ≡ true) (ap (λ p. p.0) (ok-injective h))
                  valid;
          }))))))))))

-- A command that decodes asks for one of the four operations.
pub decode_command_valid :
    (input : Bytes) (cmd : Command) → decode_command input ≡ ok cmd → is_client_op cmd.op ≡ true
unfolding decode_command IsClientCommand
decode_command_valid input cmd h = of_read (read_command input) refl h
  where
    of_read :
        (o : Outcome DecodeError (Command × Bytes))
        → read_command input ≡ o
        → ◌≡◌ {A = Outcome DecodeError Command}
            (elim o [ ok (c, rest) ↦ ok c | err e ↦ err e ])
            (ok cmd)
        → is_client_op cmd.op ≡ true
    of_read (ok (c, rest)) q h =
        read_command-Yields.at input cmd rest (q ∙ ap (λ x. ok (x, rest)) (ok-injective h))
    of_read (err e) q h = cc
