-- ===== src/Base/Decimal.antt =====
-- Decimal numbers in file names: what fmt.Sprintf and fmt.Sscanf (Go's standard library) make of
-- the verb %020d for a uint64.
pub mod Padded
use Prim.Native.Nat.{ℕ, zero, suc, ◌+◌, ◌-◌, ◌*◌, ◌/◌, ◌%◌, ◌^◌}
use mathlib.Core.Bool.{Bool, false, not, ◌&&◌, ◌||◌}
use mathlib.Core.Option.{Option, none, some}
use mathlib.Core.List.{[], ◌∷◌, ◌++◌}
use parallax_kv.Base.Tests.{◌==◌, nat_eq, leb, ltb, if◌then◌else◌}
use parallax_kv.Base.Words.{Bytes}

-- the last n digits of v
unfoldable pub padded : ℕ → ℕ → Bytes
padded zero v = []
padded (suc n) v = padded n (v / 10) ++ (b'0' + v % 10) ∷ []

abbrev is_digit : ℕ → Bool
is_digit c = leb b'0' c && leb c b'9'

-- unicode.IsSpace, of a one-byte character that is no newline
abbrev is_space : ℕ → Bool
is_space c = c == 32 || c == 9 || c == 11 || c == 12 || c == 13

skip_space : Bytes → Bytes
skip_space [] = []
skip_space (c ∷ cs) = let rest = skip_space cs in if is_space c then rest else c ∷ cs

-- at most n digits behind the value read so far, and what follows them
digits : ℕ → ℕ → Bytes → ℕ × Bytes
digits zero acc cs = (acc, cs)
digits (suc n) acc [] = (acc, [])
digits (suc n) acc (c ∷ cs) =
    let rest = digits n (acc * 10 + (c - b'0')) cs in if is_digit c then rest else (acc, c ∷ cs)

first_is_digit : Bytes → Bool
first_is_digit [] = false
first_is_digit (c ∷ cs) = is_digit c

-- The number at the front of a text, and what follows it: no digit and a number that a uint64
-- does not hold are errors.
unfoldable pub scan_padded : ℕ → Bytes → Option (ℕ × Bytes)
unfolding skip_space digits first_is_digit
scan_padded n cs =
    let cs' = skip_space cs in
    let (v, rest) = digits n 0 cs' in
    if not (first_is_digit cs') || leb (2 ^ 64) v then none else some (v, rest)
