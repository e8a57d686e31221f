-- ===== src/Entity/User/Profile.antt =====
-- The row of a user after a profile update.
use hexagonal_backend.Common.{◌≡◌, true, arith}
use hexagonal_backend.Common.Result.{ok}
use hexagonal_backend.Entity.Types.{User, UpdateProfileArgs}
use hexagonal_backend.Entity.User.{update_profile, set_email, set_optional_email}
use hexagonal_backend.Env.{Env}
use hexagonal_backend.World.{World}

-- A profile update keeps who the user is and the password, and leaves an email verified only if it
-- is the email that was verified before.
pub update_profile_lem :
    (u v : User) (args : UpdateProfileArgs) (env : Env) (w : World)
    → (update_profile u args env w).0 ≡ ok v
    → (v.id ≡ u.id)
      × (v.password ≡ u.password)
      × (v.email_verified ≡ true → (v.email ≡ u.email) × (u.email_verified ≡ true))
unfolding update_profile set_optional_email set_email
update_profile_lem u v args env w h = ground arith
