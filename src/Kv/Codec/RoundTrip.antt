-- ===== src/Kv/Codec/RoundTrip.antt =====
-- What each helper of kv/codec.go appends, its reader gives back, with the bytes that follow.
use parallax_kv.Base.{
  ℕ, ◌^◌, ◌<◌, ◌≡◌, refl, ap, ◌∙◌, Option, none, some, [], ◌∷◌, ◌++◌, append_assoc, Bytes, ok,
  length, length-append, take-append, drop-append, be_bytes, be_value, length-be_bytes,
  be_value-be_bytes, ltb-false, u32, arith,
}
use parallax_kv.Kv.Codec.{
  append_uint32, append_string, append_opt_bytes, byte, uint64, uint32, bytes_n, string, opt_bytes,
  pure, Decoder, ◌>>=◌, >>=-ok,
}

-- what the helpers append
abbrev pub string_code : Bytes → Bytes
string_code s = be_bytes 4 (u32 (length s)) ++ s

abbrev pub opt_code : Option Bytes → Bytes
opt_code none = 0 ∷ []
opt_code (some b) = 1 ∷ string_code b

-- A length that a uint32 holds.
abbrev pub Fits : Option Bytes → Type 0
Fits none = Unit
Fits (some b) = length b < 2 ^ 32

pub append_string-eq : (buf s : Bytes) → append_string buf s ≡ buf ++ string_code s
unfolding append_string append_uint32
append_string-eq buf s = append_assoc buf (be_bytes 4 (u32 (length s))) s

pub append_opt_bytes-eq :
    (buf : Bytes) (b : Option Bytes) → append_opt_bytes buf b ≡ buf ++ opt_code b
unfolding append_opt_bytes append_uint32
append_opt_bytes-eq buf none = refl
append_opt_bytes-eq buf (some b) = simp append_assoc

-- Cutting a prefix of known length off the input.
pub bytes_n-append : (xs rest : Bytes) → bytes_n (length xs) (xs ++ rest) ≡ ok (xs, rest)
unfolding bytes_n
bytes_n-append xs rest =
    rw (ltb-false (length (xs ++ rest)) (length xs) (omega (arith, length-append xs rest)))
      (rw (take-append xs rest, drop-append xs rest))

word : (n : ℕ) (v : ℕ) (rest : Bytes) → bytes_n n (be_bytes n v ++ rest) ≡ ok (be_bytes n v, rest)
word n v rest =
    ap (λ k. bytes_n k (be_bytes n v ++ rest)) {x = n} {y = length (be_bytes n v)}
      (omega (arith, length-be_bytes n v))
    ∙ bytes_n-append (be_bytes n v) rest

uint64-bytes_n : (d b rest : Bytes) → bytes_n 8 d ≡ ok (b, rest) → uint64 d ≡ ok (be_value b, rest)
unfolding bytes_n uint64
uint64-bytes_n d b rest h = ground arith

uint32-bytes_n : (d b rest : Bytes) → bytes_n 4 d ≡ ok (b, rest) → uint32 d ≡ ok (be_value b, rest)
unfolding bytes_n uint32
uint32-bytes_n d b rest h = ground arith

pub uint64-be_bytes :
    (v : ℕ) (rest : Bytes) → v < 2 ^ 64 → uint64 (be_bytes 8 v ++ rest) ≡ ok (v, rest)
uint64-be_bytes v rest h =
    uint64-bytes_n _ _ _ (word 8 v rest) ∙ ap (λ n. ok (n, rest)) (be_value-be_bytes 8 v h)

pub uint32-be_bytes :
    (v : ℕ) (rest : Bytes) → v < 2 ^ 32 → uint32 (be_bytes 4 v ++ rest) ≡ ok (v, rest)
uint32-be_bytes v rest h =
    uint32-bytes_n _ _ _ (word 4 v rest) ∙ ap (λ n. ok (n, rest)) (be_value-be_bytes 4 v h)

pub string-string_code :
    (s rest : Bytes) → length s < 2 ^ 32 → string (string_code s ++ rest) ≡ ok (s, rest)
unfolding string
string-string_code s rest h =
    ap string (append_assoc (be_bytes 4 (u32 (length s))) s rest)
    ∙ >>=-ok uint32 bytes_n (uint32-be_bytes (u32 (length s)) (s ++ rest) (omega arith))
    ∙ ap (λ n. bytes_n n (s ++ rest)) {y = length s} (omega arith)
    ∙ bytes_n-append s rest

-- A length-prefixed slice, read by a longer `do` block.
prefixed {κ} :
    {B : Type κ} (b rest : Bytes) (f : Bytes → Decoder B)
    → length b < 2 ^ 32
    → (uint32 >>= λ n. bytes_n n >>= f) (string_code b ++ rest) ≡ f b rest
prefixed b rest f h =
    ap (uint32 >>= λ n. bytes_n n >>= f) (append_assoc (be_bytes 4 (u32 (length b))) b rest)
    ∙ >>=-ok uint32 (λ n. bytes_n n >>= f)
        (uint32-be_bytes (u32 (length b)) (b ++ rest) (omega arith))
    ∙ ap (λ n. (bytes_n n >>= f) (b ++ rest)) {y = length b} (omega arith)
    ∙ >>=-ok (bytes_n (length b)) f (bytes_n-append b rest)

pub opt_bytes-opt_code :
    (b : Option Bytes) (rest : Bytes) → Fits b → opt_bytes (opt_code b ++ rest) ≡ ok (b, rest)
unfolding opt_bytes byte
opt_bytes-opt_code none rest h = refl
opt_bytes-opt_code (some b) rest h = prefixed b rest (λ x. pure (some x)) h
