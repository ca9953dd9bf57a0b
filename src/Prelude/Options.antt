-- ===== src/Prelude/Options.antt =====
-- `do` blocks over `Option`: code whose only failure is one exception.
use mathlib.Core.Bool.{Bool, true, false}
use mathlib.Core.Option.{Option, none, some}

infixl 5 ◌>>=◌ ◌>>◌
abbrev pub ◌>>=◌ {ℓ κ} : {A : Type ℓ} {B : Type κ} → Option A → (A → Option B) → Option B
none >>= f = none
some a >>= f = f a

abbrev pub ◌>>◌ {ℓ} : {B : Type ℓ} → Option (Unit {0}) → Option B → Option B
m >> k = m >>= λ _. k

-- `_require(condition, ...)`
abbrev pub guard : Bool → Option (Unit {0})
guard true = some tt
guard false = none
