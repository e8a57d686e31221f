-- ===== src/Command/ForgotPassword.antt =====
-- modules/auth/application/command/forgot_password.go. A mail that is sent is recorded.
pub mod Answers
use Prim.Native.Char.{Char}
use hexagonal_backend.Common.{
  ℕ, ◌+◌, ◌-◌, String, Bool, true, false, ◌&&◌, ◌||◌, Option, none, some, ◌==◌, leb, List, [], ◌∷◌,
  if◌then◌else◌,
}
use hexagonal_backend.Common.Int.{int_gt}
use hexagonal_backend.Common.Time.{hour}
use hexagonal_backend.Common.Result.{Result, ok, err}
use hexagonal_backend.Define.Keys.{forgot_password_rate_key}
use hexagonal_backend.Entity.Client.{default_tenant_id}
use hexagonal_backend.Entity.Types.{User}
use hexagonal_backend.Entity.User.{set_password_reset_token, password_reset_token_ttl}
use hexagonal_backend.World.Cache.{incr_window}
use hexagonal_backend.World.Monad.{
  when◌then◌else◌, M, pure, asks, attempt, best_effort, modify, ◌>>=◌, ◌>>◌, random_token,
  store_call,
}
use hexagonal_backend.World.Stores.{find_user_by_email, save_user}

abbrev pub forgot_password_max_per_window : ℕ
forgot_password_max_per_window = 3

abbrev pub forgot_password_window : ℕ
forgot_password_window = hour

-- forgotPasswordRateKey, on the digest of the lowercased and trimmed address
unfoldable pub rate_key : String → M String
rate_key email = asks (λ env. forgot_password_rate_key (env.sha256_hex (env.lower_trimmed email)))

-- rateLimited
unfoldable pub rate_limited : String → M Bool
unfolding rate_key
rate_limited email = do
  cached ← asks (λ env. env.has_cache)
  when cached
      then (do
        key ← rate_key email
        counted ← attempt (incr_window key forgot_password_window)
        elim counted [
          | err _ ↦ pure false
          | ok count ↦ pure (int_gt count forgot_password_max_per_window)
        ])
      else pure false

-- SendPasswordResetEmail
send_reset_email : String → String → M (Unit {0})
send_reset_email to raw_token = do
  store_call
  modify λ w. record w { mails = (to, raw_token) ∷ w.mails }

deliver : User → String → M (Unit {0})
unfolding send_reset_email
deliver user token = do
  wired ← asks (λ env. env.has_email_sender)
  when wired then best_effort (send_reset_email user.email token) else pure tt

reset_with : User → String → M (Unit {0})
unfolding deliver
reset_with user token = do
  updated ← set_password_reset_token user token password_reset_token_ttl
  saved ← attempt (save_user updated)
  elim saved [ err _ ↦ pure tt | ok _ ↦ deliver updated token ]

start_reset : User → M (Unit {0})
unfolding reset_with
start_reset user = do
  drawn ← attempt random_token
  elim drawn [ err _ ↦ pure tt | ok token ↦ reset_with user token ]

-- Execute
unfoldable pub execute : String → M (Unit {0})
unfolding start_reset
execute email = do
  limited ← rate_limited email
  when limited then pure tt else (do
    found ← attempt (find_user_by_email default_tenant_id email)
    elim found [ err _ ↦ pure tt | ok user ↦ start_reset user ])
