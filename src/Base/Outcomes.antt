-- ===== src/Base/Outcomes.antt =====
-- What a Go function comes to: a value, an error it returns, or a run-time panic. Shared by every module.
use Prim.Native.Nat.{ℕ}
use mathlib.Core.Path.{◌≡◌, refl}
use mathlib.Core.Logic.{◌⊎◌, inl, inr}
use mathlib.Core.Bool.{Bool, true, false}
use mathlib.Core.List.{List}
use mathlib.Core.Option.{Option, none, some}

-- The part of a frame that was missing, in the order in which they are read.
pub data Part : Type 0 where
  type_part nsp_length nsp_part event_length event_part ack_part : Part

-- The errors that the code makes, and those it passes on from the packages that it calls.
pub data Error : Type 0 where
  too_short : Part → Error
  unsupported_type : List ℕ → Error
  invalid_definition : Error
  invalid_name : List ℕ → Error
  invalid_array : Error
  unsupported_code : ℕ → Error
  external : List ℕ → Error

-- `exhausted` is the model's: a bound on a recursion was too low. The code has no counterpart.
pub data Stop : Type 0 where
  error : Error → Stop
  panic : Stop
  exhausted : Stop

pub data Outcome {ℓ} (A : Type ℓ) : Type ℓ where
  ok : A → Outcome A
  stop : Stop → Outcome A

pattern abbrev pub err {ℓ} : {A : Type ℓ} → Error → Outcome A
err e = stop (error e)

infixl 5 ◌>>=◌ ◌>>◌
abbrev pub ◌>>=◌ {ℓ κ} : {A : Type ℓ} {B : Type κ} → Outcome A → (A → Outcome B) → Outcome B
ok a >>= f = f a
stop s >>= f = stop s

abbrev pub ◌>>◌ {ℓ} : {B : Type ℓ} → Outcome (Unit {0}) → Outcome B → Outcome B
m >> k = m >>= λ _. k

abbrev pub guard : Bool → Stop → Outcome (Unit {0})
guard true s = ok tt
guard false s = stop s

abbrev pub or_stop {ℓ} : {A : Type ℓ} → Option A → Stop → Outcome A
or_stop (some a) s = ok a
or_stop none s = stop s

-- What a call of a package comes to, when it does not panic: a value, or an error with its message.
pub data Fallible {ℓ} (A : Type ℓ) : Type ℓ where
  done : A → Fallible A
  failed : List ℕ → Fallible A

abbrev pub lift {ℓ} : {A : Type ℓ} → Fallible A → Outcome A
lift (done a) = ok a
lift (failed message) = err (external message)

pub Outcome-cases {ℓ} :
    {A : Type ℓ} (r : Outcome A) → ((a : A) × (r ≡ ok a)) ⊎ ((s : Stop) × (r ≡ stop s))
Outcome-cases (ok a) = inl (a, refl)
Outcome-cases (stop s) = inr (s, refl)

-- A chain that ends well has a first part that does.
pub >>=-eq-ok {ℓ κ} :
    {A : Type ℓ} {B : Type κ} {result : B} (first : Outcome A) (next : A → Outcome B)
    → ◌≡◌ {A = Outcome B} (first >>= next) (ok result)
    → (value : A) × (first ≡ ok value) × (next value ≡ ok result)
>>=-eq-ok (ok value) next e = (value, refl, e)
>>=-eq-ok (stop s) next e = cc
