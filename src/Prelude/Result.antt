-- ===== src/Prelude/Result.antt =====
-- What a Go call does: it returns a value, returns an error, or panics. `diverged` is no Go value:
-- a loop of the model has used up its fuel.
use mathlib.Core.Path.{◌≡◌, refl}
use mathlib.Core.Bool.{Bool, true, false}
use mathlib.Core.Option.{Option, none, some}

-- The error values of the packages, and those that their calls pass on.
pub data Error : Type 0 where
  read_error write_error invalid_curve key_size invalid_collision : Error
  input_too_short invalid_padding invalid_mac : Error
  out_of_block_index wrong_block_size : Error

-- The run-time faults of Go that the code can meet.
pub data Fault : Type 0 where
  nil_dereference bad_assertion bad_argument index_out_of_range divide_by_zero closed_channel
        panicked :
      Fault

pub data Result {ℓ} (A : Type ℓ) : Type ℓ where
  ok : A → Result A
  err : Error → Result A
  panic : Fault → Result A
  diverged : Result A

infixl 5 ◌>>=◌ ◌>>◌
abbrev pub ◌>>=◌ {ℓ κ} : {A : Type ℓ} {B : Type κ} → Result A → (A → Result B) → Result B
ok a >>= f = f a
err e >>= f = err e
panic p >>= f = panic p
diverged >>= f = diverged

abbrev pub ◌>>◌ {ℓ} : {B : Type ℓ} → Result (Unit {0}) → Result B → Result B
m >> k = m >>= λ _. k

-- `if !test { return err }`
abbrev pub require : Bool → Error → Result (Unit {0})
require true e = ok tt
require false e = err e

-- A use of a pointer.
abbrev pub deref {ℓ} : {A : Type ℓ} → Option A → Result A
deref (some a) = ok a
deref none = panic nil_dereference

-- A sequence that returns has a first part that does.
module _ {ℓ κ} {A : Type ℓ} {B : Type κ} (next : A → Result B) {last : B} where
  pub >>=-eq-ok :
      (first : Result A)
      → (first >>= next) ≡ ok last
      → (mid : A) × (first ≡ ok mid) × (next mid ≡ ok last)
  >>=-eq-ok (ok mid) e = (mid, refl, e)
  >>=-eq-ok (err x) e = cc
  >>=-eq-ok (panic p) e = cc
  >>=-eq-ok diverged e = cc

pub ok-injective {ℓ} : {A : Type ℓ} {a b : A} → ok a ≡ ok b → a ≡ b
ok-injective e = cc
