-- ===== src/Common/Result.antt =====
-- A fallible computation: Go's pair of a value and an error.
use hexagonal_backend.Common.{◌≡◌, refl, Bool, true, false}
use hexagonal_backend.Errors.{Error}

pub data Result {ℓ} (Answer : Type ℓ) : Type ℓ where
  ok : Answer → Result Answer
  err : Error → Result Answer

module _ {ℓ κ} {Answer : Type ℓ} {Next : Type κ} where
  infixl 5 ◌>>=◌
  -- if err != nil { return err }
  abbrev pub ◌>>=◌ : Result Answer → (Answer → Result Next) → Result Next
  err reason >>= next = err reason
  ok answer >>= next = next answer

module _ {κ} {Next : Type κ} where
  infixl 5 ◌>>◌
  abbrev pub ◌>>◌ : Result (Unit {0}) → Result Next → Result Next
  check >> next = check >>= λ _. next

-- `if bad { return err }`
abbrev pub fail_if : Bool → Error → Result (Unit {0})
fail_if true e = err e
fail_if false e = ok tt

abbrev pub is_ok {ℓ} : {A : Type ℓ} → Result A → Bool
is_ok (ok a) = true
is_ok (err e) = false

-- What a computation that succeeds has gone through.
pub >>=-eq-ok {ℓ κ} :
    {A : Type ℓ} {B : Type κ} (first : Result A) (next : A → Result B) {answer : B}
    → (first >>= next) ≡ ok answer
    → (a : A) × (first ≡ ok a) × (next a ≡ ok answer)
>>=-eq-ok (err reason) next h = absurd (cc)
>>=-eq-ok (ok a) next h = (a, refl, h)
