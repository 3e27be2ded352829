-- ===== src/Prelude/Outcome.antt =====
-- What an operation of C comes to: a value, an end of the program, or something that C leaves open.
use mathlib.Core.Bool.{Bool, true, false}
use mathlib.Core.Option.{Option, none, some}
use mathlib.Core.Path.{◌≡◌, ap}

-- An operation returns, stops the program (an `assert`, a fatal error, `not_reached`), or leaves
-- what C defines: a pointer that points nowhere, an index outside its array, no end.
pub data Outcome {ℓ} (A : Type ℓ) : Type ℓ where
  returns : A → Outcome A
  stops undefined : Outcome A

infixl 5 ◌>>=◌
abbrev pub ◌>>=◌ {ℓ κ} : {A : Type ℓ} {B : Type κ} → Outcome A → (A → Outcome B) → Outcome B
returns a >>= f = f a
stops >>= f = stops
undefined >>= f = undefined

abbrev pub or_undefined {ℓ} : {A : Type ℓ} → Option A → Outcome A
or_undefined none = undefined
or_undefined (some a) = returns a

abbrev pub or_stops {ℓ} : {A : Type ℓ} → Option A → Outcome A
or_stops none = stops
or_stops (some a) = returns a

abbrev pub assert : Bool → Outcome (Unit {0})
assert true = returns tt
assert false = stops

pub returns-eq {ℓ} : {A : Type ℓ} {m n : A} → returns m ≡ returns n → m ≡ n
returns-eq e = cc

pub bind_returns {ℓ κ} :
    {A : Type ℓ} {B : Type κ} {o : Outcome A} {a : A} (f : A → Outcome B)
    → o ≡ returns a
    → (o >>= f) ≡ f a
bind_returns f e = ap (λ o. o >>= f) e
