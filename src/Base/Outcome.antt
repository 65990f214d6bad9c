-- ===== src/Base/Outcome.antt =====
-- The outcome of a call that may fault, as a monad.
use mathlib.Core.Option.{Option, none, some}

-- `panic` is a panic, `unsound` a read through a raw pointer that is out of bounds, and `timeout`
-- a loop that has used up the fuel of the model.
pub data Fault : Type 0 where
  panic unsound timeout : Fault

pub data Run {ℓ} (A : Type ℓ) : Type ℓ where
  ok : A → Run A
  fault : Fault → Run A

infixl 5 ◌>>=◌ ◌>>◌
abbrev pub ◌>>=◌ {ℓ κ} : {A : Type ℓ} {B : Type κ} → Run A → (A → Run B) → Run B
ok a >>= f = f a
fault e >>= f = fault e

abbrev pub ◌>>◌ {ℓ κ} : {A : Type ℓ} {B : Type κ} → Run A → Run B → Run B
m >> k = m >>= λ _. k

-- `Option::unwrap` and `Option::expect`.
abbrev pub unwrap {ℓ} : {A : Type ℓ} → Option A → Run A
unwrap none = fault panic
unwrap (some a) = ok a
