-- ===== src/Entity/User.antt =====
-- modules/auth/domain/entity/user.go. Each method reads the clock where the code does.
pub mod Lockout
pub mod Profile
mod Password
unfoldable pub use Password.{validate_password}
use Prim.Native.String.{len}
use Prim.Native.Nat.{min}
use hexagonal_backend.Common.{
  ℕ, ◌+◌, ◌-◌, ◌*◌, ◌^◌, String, Bool, true, false, not, ◌&&◌, Option, none, some, ltb,
  if◌then◌else◌,
}
use hexagonal_backend.Common.Int.{incr64, int_ge}
use hexagonal_backend.Common.Text.{is_empty, str_eq}
use hexagonal_backend.Common.Time.{Time, minute, hour, before, after, add}
use hexagonal_backend.Common.Result.{Result}
use hexagonal_backend.Common.Result
use hexagonal_backend.Entity.Client.{default_tenant_id}
use hexagonal_backend.Entity.Types.{User, UserArgs, UpdateProfileArgs}
use hexagonal_backend.Env.{Env}
use hexagonal_backend.Errors.{Error, plain}
use hexagonal_backend.World.Monad.{
  when◌then◌else◌, M, pure, raise, asks, ◌>>=◌, ◌>>◌, raise_if, now, new_uuid, hash_password, lift,
}

abbrev pub password_reset_token_ttl : ℕ
password_reset_token_ttl = 15 * minute

abbrev pub password_hash_cost : ℕ
password_hash_cost = 12

abbrev pub max_failed_login_attempts : ℕ
max_failed_login_attempts = 5

abbrev pub lockout_base_duration : ℕ
lockout_base_duration = 1 * minute

abbrev pub lockout_max_duration : ℕ
lockout_max_duration = 1 * hour

-- NewUser
unfoldable pub new_user : UserArgs → M User
new_user args = do
  valid ← asks (λ env. validate_password env args.password)
  lift valid
  user_id ← new_uuid
  hashed ← hash_password args.password
  created ← now
  updated ← now
  pure (record {
    created_at = created;
    updated_at = updated;
    id = user_id;
    tenant_id = if is_empty args.tenant_id then default_tenant_id else args.tenant_id;
    username = args.username;
    nickname = args.nickname;
    password = hashed;
    email = args.email;
    email_verified = args.email_verified;
    password_reset_token_hash = none;
    password_reset_expires_at = none;
    sessions_invalidated_at = none;
    failed_login_attempts = 0;
    locked_until = none;
  })

-- ValidatePassword: true if the error is nil
unfoldable pub password_matches : Env → User → String → Bool
password_matches env u password = env.bcrypt_matches u.password password

-- RehashPasswordIfNeeded
unfoldable pub rehash_password_if_needed : User → String → M (User × Bool)
rehash_password_if_needed u password = do
  cost ← asks (λ env. env.bcrypt_cost u.password)
  elim cost [
    | none ↦ pure (u, false)
    | some c ↦
        when ltb c password_hash_cost
        then (do
          hashed ← hash_password password
          t ← now
          pure (record u { password = hashed; updated_at = t }, true))
        else pure (u, false)
  ]

-- IsLockedOut
unfoldable pub is_locked_out : User → M Bool
is_locked_out u = elim u.locked_until [
  | none ↦ pure false
  | some until ↦ do t ← now; pure (before t until)
]

-- lockoutDuration
unfoldable pub lockout_duration : ℕ → ℕ
lockout_duration attempts_over_threshold =
    if ltb 6 attempts_over_threshold
    then lockout_max_duration
    else min (lockout_base_duration * 2 ^ attempts_over_threshold) lockout_max_duration

lock_from_threshold : User → M User
unfolding lockout_duration
lock_from_threshold u =
    when int_ge u.failed_login_attempts max_failed_login_attempts
    then (do
      t ← now
      pure (record u {
        locked_until =
            some (add t (lockout_duration (u.failed_login_attempts - max_failed_login_attempts)));
      }))
    else pure u

-- RecordFailedLogin
unfoldable pub record_failed_login : User → M User
unfolding lock_from_threshold
record_failed_login u = do
  locked ← lock_from_threshold (record u { failed_login_attempts = incr64 u.failed_login_attempts })
  t ← now
  pure (record locked { updated_at = t })

-- ResetFailedLogins
unfoldable pub reset_failed_logins : User → M User
reset_failed_logins u = do
  t ← now
  pure (record u { failed_login_attempts = 0; locked_until = none; updated_at = t })

-- SetEmail
unfoldable pub set_email : User → String → User
set_email u v = if str_eq u.email v then u else record u { email = v; email_verified = false }

abbrev set_username : Option String → User → User
set_username none u = u
set_username (some v) u = record u { username = v }

abbrev set_nickname : Option String → User → User
set_nickname none u = u
set_nickname (some v) u = record u { nickname = v }

set_optional_email : Option String → User → User
unfolding set_email
set_optional_email none u = u
set_optional_email (some v) u = set_email u v

-- UpdateProfile
unfoldable pub update_profile : User → UpdateProfileArgs → M User
unfolding set_optional_email
update_profile u args = do
  t ← now
  pure
      (record (set_optional_email args.email
        (set_nickname args.nickname (set_username args.username u))) { updated_at = t })

-- SetPasswordResetToken
unfoldable pub set_password_reset_token : User → String → ℕ → M User
set_password_reset_token u raw_token ttl = do
  hashed ← asks (λ env. env.sha256_hex raw_token)
  t ← now
  t' ← now
  pure (record u {
    password_reset_token_hash = some hashed;
    password_reset_expires_at = some (add t ttl);
    updated_at = t';
  })

-- IsResetTokenExpired
unfoldable pub is_reset_token_expired : User → M Bool
is_reset_token_expired u = elim u.password_reset_expires_at [
  | none ↦ pure true
  | some until ↦ do t ← now; pure (after t until)
]

-- ValidateResetToken
unfoldable pub validate_reset_token : User → String → M Bool
unfolding is_reset_token_expired
validate_reset_token u raw_token = elim u.password_reset_token_hash [
  | none ↦ pure false
  | some h ↦ do
    hashed ← asks (λ env. env.sha256_hex raw_token)
    when str_eq h hashed
        then (do expired ← is_reset_token_expired u; pure (not expired))
        else pure false
]

-- InvalidateSessions
unfoldable pub invalidate_sessions : User → M User
invalidate_sessions u = do
  t ← now
  pure (record u { sessions_invalidated_at = some t; updated_at = t })

-- ClearPasswordResetToken
unfoldable pub clear_password_reset_token : User → M User
clear_password_reset_token u = do
  t ← now
  pure (record u {
    password_reset_token_hash = none;
    password_reset_expires_at = none;
    updated_at = t;
  })

-- SetPassword
unfoldable pub set_password : User → String → M User
set_password u str = do
  valid ← asks (λ env. validate_password env str)
  lift valid
  hashed ← hash_password str
  t ← now
  pure (record u { password = hashed; updated_at = t })
