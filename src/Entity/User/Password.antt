-- ===== src/Entity/User/Password.antt =====
-- validatePassword of modules/auth/domain/entity/user.go.
use Prim.Native.String.{len}
use hexagonal_backend.Common.{String, Bool, true, false, not, ltb, if◌then◌else◌}
use hexagonal_backend.Common.Result.{Result}
use hexagonal_backend.Env.{Env}
use hexagonal_backend.Errors.{plain}

-- The flags hasUpper, hasLower, hasDigit, hasSpecial.
pub record Classes : Type 0 where
  pub upper : Bool
  pub lower : Bool
  pub digit : Bool
  pub special : Bool

-- The first case that fits a character sets its flag.
classify : Env → String → Classes → Classes
classify env String.[] k = k
classify env (String.◌∷◌ c s) k = classify env s (
    if env.is_upper c
    then record k { upper = true }
    else if env.is_lower c
    then record k { lower = true }
    else if env.is_digit c
    then record k { digit = true }
    else if env.is_special c
    then record k { special = true }
    else k)

abbrev no_classes : Classes
no_classes = record { upper = false; lower = false; digit = false; special = false }

check_classes : Classes → Result (Unit {0})
check_classes k =
    if not k.upper
    then Result.err (plain "password must contain at least one uppercase letter")
    else if not k.lower
    then Result.err (plain "password must contain at least one lowercase letter")
    else if not k.digit
    then Result.err (plain "password must contain at least one digit")
    else if not k.special
    then Result.err (plain "password must contain at least one special character")
    else Result.ok tt

-- validatePassword
unfoldable pub validate_password : Env → String → Result (Unit {0})
unfolding classify check_classes
validate_password env p =
    if ltb (len p) 8
    then Result.err (plain "password must be at least 8 characters")
    else check_classes (classify env p no_classes)
