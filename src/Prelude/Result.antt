-- ===== src/Prelude/Result.antt =====
-- Python's exceptions as values: what a call returns, or the class of what it raises.
use mathlib.Core.Path.{◌≡◌, refl}
use mathlib.Core.Bool.{Bool, true, false}
use native.Mathlib.Omega.{arith}

pub data Error : Type 0 where
  validation_error value_error type_error key_error assertion_error integrity_error index_error :
      Error

pub data Result {ℓ} (A : Type ℓ) : Type ℓ where
  ok : A → Result A
  err : Error → Result A

-- `if not test: raise error`
abbrev pub require : Bool → Error → Result (Unit {0})
require test error = elim test [ true ↦ ok tt | false ↦ err error ]

module _ {ℓ κ} {A : Type ℓ} {B : Type κ} where
  infixl 5 ◌>>=◌
  -- The rest of a function, which an exception skips.
  abbrev pub ◌>>=◌ : Result A → (A → Result B) → Result B
  ok returned >>= rest = rest returned
  err raised >>= rest = err raised

  -- What a bind that returned has passed through.
  pub >>=-eq-ok :
      (first : Result A) (rest : A → Result B) {returned : B}
      → (first >>= rest) ≡ ok returned
      → (passed : A) × (first ≡ ok passed) × (rest passed ≡ ok returned)
  >>=-eq-ok (err raised) rest h = ground arith
  >>=-eq-ok (ok passed) rest h = (passed, refl, h)

module _ {κ} {B : Type κ} where
  infixl 5 ◌>>◌
  abbrev pub ◌>>◌ : Result (Unit {0}) → Result B → Result B
  ok done >> rest = rest
  err raised >> rest = err raised
