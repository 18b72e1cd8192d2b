-- ===== src/Base/Returns.antt =====
-- What a computation that may panic returns: one rule for each way to build one.
use mathlib.Core.Path.{◌≡◌, refl, subst}
use mathlib.Core.Bool.{Bool, true, false}
use mathlib.Core.Option.{Option, none, some, some-injective}
use parallax_kv.Base.Tests.{if◌then◌else◌}
use parallax_kv.Base.Panics.{◌>>=◌}

-- Every value that `m` returns satisfies P.
pub record Returns {ℓ κ} {A : Type ℓ} (P : A → Type κ) (m : Option A) : Type (ℓ ⊔ κ) where
  pub at : (a : A) → m ≡ some a → P a

module _ {ℓ κ} {A : Type ℓ} {P : A → Type κ} where
  pub Returns-intro : (m : Option A) → ((a : A) → m ≡ some a → P a) → Returns P m
  Returns-intro m h = record { at = h }

  pub Returns-none : Returns P none
  Returns-none = record { at = λ a h. cc }

  pub Returns-some : (a : A) → P a → Returns P (some a)
  Returns-some a p = record { at = λ b h. subst P (some-injective _ _ h) p }

  pub Returns-if :
      (b : Bool) (m n : Option A)
      → (b ≡ true → Returns P m)
      → (b ≡ false → Returns P n)
      → Returns P (if b then m else n)
  Returns-if true m n hm hn = hm refl
  Returns-if false m n hm hn = hn refl

module _ {ℓ κ ι} {A : Type ℓ} {B : Type κ} {P : B → Type ι} where
  pub Returns-bind :
      (m : Option A) (f : A → Option B)
      → ((a : A) → m ≡ some a → Returns P (f a))
      → Returns P (m >>= f)
  Returns-bind none f h = Returns-none
  Returns-bind (some a) f h = h a refl

-- A computation that returned has gone through its parts.
pub bind-eq-some {ℓ κ} :
    {A : Type ℓ} {B : Type κ} (m : Option A) (f : A → Option B) {b : B}
    → (m >>= f) ≡ some b
    → (a : A) × (m ≡ some a) × (f a ≡ some b)
bind-eq-some none f e = cc
bind-eq-some (some a) f e = (a, refl, e)
