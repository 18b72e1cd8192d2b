-- ===== src/Kv/Codec.antt =====
-- kv/codec.go: the binary helpers that the Command encoding and the snapshot format share.
-- `decoder` is the unread part of its buffer, `d.buf[d.off:]`; the offset itself only enters the
-- texts of errors. A nil `[]byte` is `none`, an empty one `some []`.
pub mod RoundTrip
use parallax_kv.Base.{
  ℕ, ◌-◌, ◌≡◌, Option, none, some, List, [], ◌∷◌, ◌++◌, Bytes, Outcome, ok, err, length, take, drop,
  be_bytes, be_value, ltb, u32, ◌==◌, nat_eq, if◌then◌else◌,
}

-- The errors of the package, without the text that they carry.
pub data DecodeError : Type 0 where
  truncated invalid_flag trailing_bytes unknown_version invalid_op bad_count : DecodeError

abbrev pub flag_absent : ℕ
flag_absent = 0

abbrev pub flag_present : ℕ
flag_present = 1

unfoldable pub append_uint64 : Bytes → ℕ → Bytes
append_uint64 buf v = buf ++ be_bytes 8 v

unfoldable pub append_uint32 : Bytes → ℕ → Bytes
append_uint32 buf v = buf ++ be_bytes 4 v

unfoldable pub append_string : Bytes → Bytes → Bytes
append_string buf s = append_uint32 buf (u32 (length s)) ++ s

unfoldable pub append_opt_bytes : Bytes → Option Bytes → Bytes
append_opt_bytes buf none = buf ++ flag_absent ∷ []
append_opt_bytes buf (some b) = append_uint32 (buf ++ flag_present ∷ []) (u32 (length b)) ++ b

abbrev pub Decoder {ℓ} : Type ℓ → Type ℓ
Decoder A = Bytes → Outcome DecodeError (A × Bytes)

module _ {ℓ κ} {A : Type ℓ} {B : Type κ} where
  infixl 5 ◌>>=◌
  -- the rest of the function, if `err == nil`
  abbrev pub ◌>>=◌ : Decoder A → (A → Decoder B) → Decoder B
  ◌>>=◌ m f d = elim (m d) [ ok (a, d') ↦ f a d' | err e ↦ err e ]

module _ {ℓ κ} {A : Type ℓ} {B : Type κ} where
  pub >>=-ok :
      (m : Decoder A) (f : A → Decoder B) {d d' : Bytes} {a : A}
      → m d ≡ ok (a, d')
      → (m >>= f) d ≡ f a d'
  >>=-ok m f h = rw (h, ◌>>=◌)

abbrev pub pure {ℓ} : {A : Type ℓ} → A → Decoder A
pure a d = ok (a, d)

abbrev pub fail {ℓ} : {A : Type ℓ} → DecodeError → Decoder A
fail e d = err e

abbrev pub remaining : Bytes → ℕ
remaining d = length d

unfoldable pub byte : Decoder ℕ
byte [] = err truncated
byte (b ∷ d) = ok (b, d)

unfoldable pub uint64 : Decoder ℕ
uint64 d = if ltb (remaining d) 8 then err truncated else ok (be_value (take 8 d), drop 8 d)

unfoldable pub uint32 : Decoder ℕ
uint32 d = if ltb (remaining d) 4 then err truncated else ok (be_value (take 4 d), drop 4 d)

unfoldable pub bytes_n : ℕ → Decoder Bytes
bytes_n n d = if ltb (remaining d) n then err truncated else ok (take n d, drop n d)

unfoldable pub string : Decoder Bytes
string = do n ← uint32; bytes_n n

-- the `switch` on the presence flag
flagged : ℕ → Decoder (Option Bytes)
flagged flag =
    if flag == flag_absent
    then pure none
    else if flag == flag_present
    then (do n ← uint32; b ← bytes_n n; pure (some b))
    else fail invalid_flag

unfoldable pub opt_bytes : Decoder (Option Bytes)
unfolding flagged
opt_bytes = do flag ← byte; flagged flag

-- An error if input remains; the decoder is not used afterwards.
unfoldable pub finish : Decoder (Unit {0})
finish d = if ltb 0 (remaining d) then err trailing_bytes else ok (tt, d)
