-- ===== src/Prelude/Run.antt =====
-- A run of a C function: its result, undefined behaviour (an access outside an object, a
-- division by zero), or fuel that ran out in a loop.

use mathlib.Core.Bool.{Bool, true, false}
use kernel_play.Prelude.Tests.{if◌then◌else◌}

pub data Run {ℓ} (A : Type ℓ) : Type ℓ where
  ok : A → Run A
  fault : Run A
  out_of_fuel : Run A

infixl 5 ◌>>=◌
abbrev pub ◌>>=◌ {ℓ κ} : {A : Type ℓ} {B : Type κ} → Run A → (A → Run B) → Run B
ok a >>= f = f a
fault >>= f = fault
out_of_fuel >>= f = out_of_fuel

-- What holds of the result, if the run gives one.
abbrev pub Ends {ℓ κ} : {A : Type ℓ} → (A → Type κ) → Run A → Type κ
Ends P (ok a) = P a
Ends P fault = Unit
Ends P out_of_fuel = Unit

pub Ends-bind {ℓ κ μ} :
    {A : Type ℓ} {B : Type κ} (P : B → Type μ) (m : Run A) (f : A → Run B)
    → ((a : A) → Ends P (f a))
    → Ends P (m >>= f)
Ends-bind P (ok a) f h = h a
Ends-bind P fault f h = tt
Ends-bind P out_of_fuel f h = tt

pub Ends-if {ℓ κ} :
    {A : Type ℓ} (P : A → Type κ) (b : Bool) (x y : Run A)
    → Ends P x
    → Ends P y
    → Ends P (if b then x else y)
Ends-if P true x y h k = h
Ends-if P false x y h k = k
