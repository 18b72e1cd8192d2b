-- ===== src/Base/Panics.antt =====
-- Computations that may panic: `none` is the panic. Slice expressions and indexing panic out of
-- range.
use Prim.Native.Nat.{ℕ}
use mathlib.Core.Bool.{◌||◌}
use mathlib.Core.Option.{Option, none, some}
use mathlib.Core.List.{List}
use parallax_kv.Base.Tests.{ltb, if◌then◌else◌}
use parallax_kv.Base.Lists.{length, take, drop}

module _ {ℓ κ} {A : Type ℓ} {B : Type κ} where
  infixl 5 ◌>>=◌
  abbrev pub ◌>>=◌ : Option A → (A → Option B) → Option B
  none >>= f = none
  some a >>= f = f a

module _ {ℓ} {A : Type ℓ} where
  -- xs[i:]
  abbrev pub slice_from : List A → ℕ → Option (List A)
  slice_from xs i = if ltb (length xs) i then none else some (drop i xs)

  -- xs[:j], of a slice whose capacity is its length
  abbrev pub slice_to : List A → ℕ → Option (List A)
  slice_to xs j = if ltb (length xs) j then none else some (take j xs)

  -- xs[i:j]
  abbrev pub slice : List A → ℕ → ℕ → Option (List A)
  slice xs i j = if ltb (length xs) j || ltb j i then none else some (drop i (take j xs))
