-- ===== src/Base/Outcome.antt =====
-- `anyhow::Result`: a value, or an error with the contexts put round it.
use Prim.Native.String.{String}
use mathlib.Core.Path.{◌≡◌}
use mathlib.Core.Option.{Option, none, some}

pub data Error : Type 0 where
  said : String → Error
  context : String → Error → Error

-- `error.to_string()`: the outermost context.
abbrev pub shown : Error → String
shown (said m) = m
shown (context m e) = m

pub data Result {ℓ} (A : Type ℓ) : Type ℓ where
  ok : A → Result A
  err : Error → Result A

infixl 5 ◌>>=◌
abbrev pub ◌>>=◌ {ℓ κ} : {A : Type ℓ} {B : Type κ} → Result A → (A → Result B) → Result B
ok a >>= f = f a
err e >>= f = err e

module _ {ℓ} {A : Type ℓ} where
  abbrev pub with_context : String → Result A → Result A
  with_context m (ok a) = ok a
  with_context m (err e) = err (context m e)

  abbrev pub or_error : Error → Option A → Result A
  or_error e none = err e
  or_error e (some a) = ok a

  -- `Result::ok`.
  abbrev pub to_option : Result A → Option A
  to_option (ok a) = some a
  to_option (err e) = none

  pub or_error-ok : (e : Error) (o : Option A) (a : A) → or_error e o ≡ ok a → o ≡ some a
  or_error-ok e none a h = cc
  or_error-ok e (some b) a h = cc
