-- ===== src/Base/Results.antt =====
-- Code that may throw: the error carries the message of the `assert` or `throw` that fired.
use Prim.Native.String.{String}
use mathlib.Core.Path.{◌≡◌, refl, ap}
use mathlib.Core.Logic.{◌≢◌, ◌⊎◌, inl, inr}
use mathlib.Core.Bool.{Bool, true, false}
use mathlib.Core.Option.{Option, none, some}

pub data Result {ℓ} (Value : Type ℓ) : Type ℓ where
  err : String → Result Value
  ok : Value → Result Value

-- `b.assertTrue(message)`.
abbrev pub require : Bool → String → Result (Unit {0})
require false message = err message
require true message = ok tt

-- `b.assertFalse(message)`.
abbrev pub forbid : Bool → String → Result (Unit {0})
forbid false message = ok tt
forbid true message = err message

abbrev pub or_throw {ℓ} : {Value : Type ℓ} → Option Value → String → Result Value
or_throw none message = err message
or_throw (some found) message = ok found

module _ {ℓ κ} {Value : Type ℓ} {Next : Type κ} where
  -- A statement that throws skips those behind it.
  infixl 5 ◌>>=◌
  abbrev pub ◌>>=◌ : Result Value → (Value → Result Next) → Result Next
  err message >>= rest = err message
  ok value >>= rest = rest value

module _ {κ} {Next : Type κ} where
  infixl 5 ◌>>◌
  abbrev pub ◌>>◌ : Result (Unit {0}) → Result Next → Result Next
  check >> rest = check >>= λ _. rest

pub Result-cases {ℓ} :
    {Value : Type ℓ} (r : Result Value)
    → ((message : String) × (r ≡ err message)) ⊎ ((value : Value) × (r ≡ ok value))
Result-cases (err message) = inl (message, refl)
Result-cases (ok value) = inr (value, refl)

pub err≢ok {ℓ} : {Value : Type ℓ} {message : String} {value : Value} → err message ≢ ok value
err≢ok h = cc

pub ok-injective {ℓ} : {Value : Type ℓ} {a b : Value} → ok a ≡ ok b → a ≡ b
ok-injective {a = a} h = ap (λ r. elim r [ err _ ↦ a | ok value ↦ value ]) h

module _ {ℓ κ} {Value : Type ℓ} {Next : Type κ} where
  -- The rest of a `do` block may be replaced by an equal one.
  pub then_ext :
      (r : Result Value) {f g : Value → Result Next}
      → ((value : Value) → f value ≡ g value)
      → (r >>= f) ≡ (r >>= g)
  then_ext (err message) h = refl
  then_ext (ok value) h = h value

  pub then_assoc {υ} :
      {Last : Type υ} (r : Result Value) (f : Value → Result Next) (g : Next → Result Last)
      → ((r >>= f) >>= g) ≡ (r >>= λ value. f value >>= g)
  then_assoc (err message) f g = refl
  then_assoc (ok value) f g = refl

  -- A `do` block that succeeds passed its first statement.
  pub then-ok :
      (r : Result Value) (f : Value → Result Next) (last : Next)
      → (r >>= f) ≡ ok last
      → (value : Value) × (r ≡ ok value) × (f value ≡ ok last)
  then-ok (err message) f last h = absurd (err≢ok h)
  then-ok (ok value) f last h = (value, refl, h)
