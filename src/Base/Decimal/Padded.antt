-- ===== src/Base/Decimal/Padded.antt =====
-- A number in decimal is read back, and sorts by its value.
use Prim.Native.Nat.{ℕ, zero, suc, ◌+◌, ◌-◌, ◌*◌, ◌/◌, ◌%◌, ◌^◌, ◌<◌}
use mathlib.Core.Path.{◌≡◌, refl, sym, ap, ◌∙◌}
use mathlib.Core.Bool.{true, false}
use mathlib.Core.Option.{some}
use mathlib.Core.List.{[], ◌∷◌, ◌++◌, append_assoc}
use native.Mathlib.Omega.{arith}
use native.Mathlib.Nat.{pow-suc}
use parallax_kv.Base.Tests.{◌==◌, nat_eq, ltb, if◌then◌else◌}
use parallax_kv.Base.Lists.{length, length-append}
use parallax_kv.Base.Sort.{bytes_leb}
use parallax_kv.Base.Words.{Bytes}
use parallax_kv.Base.Decimal.{padded, skip_space, digits, first_is_digit, scan_padded}

pub length-padded : (n v : ℕ) → length (padded n v) ≡ n
unfolding padded
length-padded zero v = refl
length-padded (suc n) v =
    omega
      (arith, length-append (padded n (v / 10)) ((b'0' + v % 10) ∷ []), length-padded n (v / 10))

digits_zero : (v : ℕ) (rest : Bytes) → digits 0 v rest ≡ (v, rest)
unfolding digits
digits_zero v rest = refl

digits_cons :
    (m acc c : ℕ) (cs : Bytes)
    → c < 10
    → digits (suc m) acc ((b'0' + c) ∷ cs) ≡ digits m (acc * 10 + c) cs
unfolding digits
digits_cons m acc c cs h = let value : b'0' + c - b'0' ≡ c = omega arith in rw value (ground arith)

-- The digits of a number, read with room for more.
digits-padded :
    (n m v : ℕ) (rest : Bytes)
    → v < 10 ^ n
    → digits (n + m) 0 (padded n v ++ rest) ≡ digits m v rest
unfolding padded
digits-padded zero m v rest h =
    ap (λ k. digits k 0 rest) {y = m} (omega arith)
    ∙ ap (λ a. digits m a rest) {y = v} (omega arith)
digits-padded (suc n) m v rest h =
    let power = pow-suc 10 n in
    let last = v % 10 in
    ap (digits (suc n + m) 0) (append_assoc (padded n (v / 10)) ((b'0' + last) ∷ []) rest)
    ∙ ap (λ k. digits k 0 (padded n (v / 10) ++ (b'0' + last) ∷ rest)) {y = n + suc m} (omega arith)
    ∙ digits-padded n (suc m) (v / 10) ((b'0' + last) ∷ rest) (omega arith)
    ∙ digits_cons m (v / 10) last rest (omega arith)
    ∙ ap (λ a. digits m a rest) {y = v} (omega arith)

padded_starts :
    (n v : ℕ) (rest : Bytes)
    → (c : ℕ) × (cs : Bytes) × (c < 10) × (padded (suc n) v ++ rest ≡ (b'0' + c) ∷ cs)
unfolding padded
padded_starts zero v rest = (v % 10, rest, omega arith, refl)
padded_starts (suc n) v rest =
    let last = (b'0' + v % 10) ∷ [] in
    let (c, cs, bound, starts) = padded_starts n (v / 10) (last ++ rest) in
    (c, cs, bound, append_assoc (padded (suc n) (v / 10)) last rest ∙ starts)

skip_space_digit : (c : ℕ) (cs : Bytes) → c < 10 → skip_space ((b'0' + c) ∷ cs) ≡ (b'0' + c) ∷ cs
unfolding skip_space
skip_space_digit c cs h = ground arith

-- Sscanf of a number that Sprintf wrote, with what follows it.
pub scan_padded-padded :
    (v : ℕ) (rest : Bytes) → v < 2 ^ 64 → scan_padded 20 (padded 20 v ++ rest) ≡ some (v, rest)
unfolding scan_padded first_is_digit
scan_padded-padded v rest h =
    let (c, cs, bound, starts) = padded_starts 19 v rest in
    let same : skip_space (padded 20 v ++ rest) ≡ padded 20 v ++ rest =
      ap skip_space starts ∙ skip_space_digit c cs bound ∙ sym starts in
    let number : digits 20 0 (padded 20 v ++ rest) ≡ (v, rest) =
      digits-padded 20 0 v rest (omega arith) ∙ digits_zero v rest in
    let digit : first_is_digit (padded 20 v ++ rest) ≡ true =
      ap first_is_digit starts ∙ ground arith in
    rw same (rw number (rw digit (ground arith)))

-- Padded numbers sort by value, and behind equal numbers the rest decides.
pub bytes_leb-padded :
    (n a b : ℕ) (r r' : Bytes)
    → a < 10 ^ n
    → b < 10 ^ n
    → bytes_leb (padded n a ++ r) (padded n b ++ r')
      ≡ (if ltb a b then true else if a == b then bytes_leb r r' else false)
unfolding padded bytes_leb
bytes_leb-padded zero a b r r' h k = ground arith
bytes_leb-padded (suc n) a b r r' h k =
    let power = pow-suc 10 n in
    ap (λ x. bytes_leb x (padded (suc n) b ++ r'))
      (append_assoc (padded n (a / 10)) ((b'0' + a % 10) ∷ []) r)
    ∙ ap (bytes_leb (padded n (a / 10) ++ (b'0' + a % 10) ∷ r))
        (append_assoc (padded n (b / 10)) ((b'0' + b % 10) ∷ []) r')
    ∙ bytes_leb-padded n (a / 10) (b / 10) ((b'0' + a % 10) ∷ r) ((b'0' + b % 10) ∷ r')
        (omega arith) (omega arith)
    ∙ ground arith
