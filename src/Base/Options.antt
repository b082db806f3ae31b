-- ===== src/Base/Options.antt =====
-- Chains of calls that may have no result.
use mathlib.Core.Option.{Option, none, some}

-- `none` is a loop that ran out of fuel, or the end of the program.
infixl 5 ◌>>=◌
abbrev pub ◌>>=◌ {ℓ κ} : {A : Type ℓ} {B : Type κ} → Option A → (A → Option B) → Option B
none >>= f = none
some a >>= f = f a
