-- ===== src/Base/Results.antt =====
-- Go's `(value, error)` results.
use mathlib.Core.Path.{◌≡◌, refl}

-- A call that returned a value, or a non-nil error and no value that its callers read.
pub data Outcome {ℓ κ} (E : Type ℓ) (A : Type κ) : Type (ℓ ⊔ κ) where
  ok : A → Outcome E A
  err : E → Outcome E A

module _ {ℓ κ} {E : Type ℓ} {A : Type κ} where
  abbrev succeeds : A → Outcome E A
  succeeds a = ok a

  pub ok-injective : {a b : A} → succeeds a ≡ ok b → a ≡ b
  ok-injective h = cc

module _ {ℓ κ ι} {E : Type ℓ} {A : Type κ} {B : Type ι} where
  -- the rest of the function, if `err == nil`
  abbrev pub and_then : Outcome E A → (A → Outcome E B) → Outcome E B
  and_then (ok a) f = f a
  and_then (err e) f = err e

  -- A chain that returned a value has gone through its parts.
  pub and_then-eq-ok :
      (m : Outcome E A) (f : A → Outcome E B) {b : B}
      → and_then m f ≡ ok b
      → (a : A) × (m ≡ ok a) × (f a ≡ ok b)
  and_then-eq-ok (ok a) f h = (a, refl, h)
  and_then-eq-ok (err e) f h = cc
