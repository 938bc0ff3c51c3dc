-- ===== src/Prelude/Outcomes.antt =====
-- What a call of the program comes to: a value, an error code, or undefined behaviour.
use Prim.Native.Nat.{ℕ}
use mathlib.Core.Path.{◌≡◌, refl, ap}
use mathlib.Core.Bool.{Bool, true, false}
use mathlib.Core.Option.{Option, none, some}

-- `err n` is the return value `-n`. `fault` stands for an access out of bounds, a failed
-- assertion, or a use of a pointer that is not valid.
pub data Outcome {ℓ} (A : Type ℓ) : Type ℓ where
  ok : A → Outcome A
  err : ℕ → Outcome A
  fault : Outcome A

-- `abbrev`: a chain computes as far as its first step is known.
infixl 5 ◌>>=◌
abbrev pub ◌>>=◌ {ℓ κ} : {A : Type ℓ} {B : Type κ} → Outcome A → (A → Outcome B) → Outcome B
fault >>= next = fault
err code >>= next = err code
ok value >>= next = next value

-- A check before what follows.
infixl 5 ◌>>◌
abbrev pub ◌>>◌ {ℓ} : {B : Type ℓ} → Outcome (Unit {0}) → Outcome B → Outcome B
fault >> after = fault
err code >> after = err code
ok passed >> after = after

-- A read that may lie out of bounds.
abbrev pub or_fault {ℓ} : {A : Type ℓ} → Option A → Outcome A
or_fault none = fault
or_fault (some a) = ok a

abbrev pub must : Bool → Outcome (Unit {0})
must true = ok tt
must false = fault

abbrev pub unless : Bool → ℕ → Outcome (Unit {0})
unless true n = ok tt
unless false n = err n

-- A chain that succeeds made its first step.
pub >>=-eq-ok {ℓ κ} :
    {A : Type ℓ} {B : Type κ} (step : Outcome A) (next : A → Outcome B) {out : B}
    → (step >>= next) ≡ ok out
    → (value : A) × (step ≡ ok value) × (next value ≡ ok out)
>>=-eq-ok fault next e = cc
>>=-eq-ok (err code) next e = cc
>>=-eq-ok (ok value) next e = (value, refl, e)

abbrev or_else {ℓ} : {A : Type ℓ} → A → Outcome A → A
or_else a (ok b) = b
or_else a (err code) = a
or_else a fault = a

pub ok-eq-ok {ℓ} : {A : Type ℓ} {a b : A} → ok a ≡ ok b → a ≡ b
ok-eq-ok {a} e = ap (or_else a) e
