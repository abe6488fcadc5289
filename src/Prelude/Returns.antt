-- ===== src/Prelude/Returns.antt =====
-- Computations that end with a result: the rules by the way that each is built.
use nika_kernel.Prelude.{◌≡◌, refl, Bool, true, false, Option, none, some, if◌then◌else◌, arith}
use nika_kernel.Prelude.Fallible.{◌>>=◌}

-- A run that ends with a value.
pub record Returns {ℓ} {A : Type ℓ} (o : Option A) : Type ℓ where
  pub value : A
  pub runs : o ≡ some value

module _ {ℓ} {A : Type ℓ} where
  pub Returns-some : (a : A) → Returns (some a)
  Returns-some a = record { value = a; runs = refl }

  pub Returns-if :
      (b : Bool) (x y : Option A)
      → (b ≡ true → Returns x)
      → (b ≡ false → Returns y)
      → Returns (if b then x else y)
  Returns-if true x y r q = r refl
  Returns-if false x y r q = q refl

module _ {ℓ} {A B : Type ℓ} where
  pub Returns-bind :
      (o : Option A) (k : A → Option B) → Returns o → ((a : A) → Returns (k a)) → Returns (o >>= k)
  Returns-bind none k r rest = absurd (ground (arith, r.runs))
  Returns-bind (some a) k r rest = rest a

pub ruleset returns_rules = (Returns-some, Returns-if, Returns-bind)
