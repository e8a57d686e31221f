-- ===== src/Tests/Accounts.antt =====
-- Sign-in, accounts, passwords and logout in the small deployment.
use hexagonal_backend.Common.{
  ◌≡◌, ◌<◌, ◌*◌, ◌^◌, ◌≤◌, ◌+◌, String, ◌⊎◌, contains, refl, true, false, none, some, leb, arith,
}
use hexagonal_backend.Common.Result.{ok, err, is_ok}
use hexagonal_backend.Common.Time.{add, hour, minute}
use hexagonal_backend.Command.CreateAuthCode.{reject_credentials, record_account_failure}
use hexagonal_backend.Command.CreateAuthCode.Rejection.{reject_credentials_lem}
use hexagonal_backend.Command.CreateUser
use hexagonal_backend.Command.CreateUser.UniqueEmails.{create_user-EmailsUnique, EmailsUnique}
use hexagonal_backend.Command.ForgotPassword
use hexagonal_backend.Command.ForgotPassword.Answers.{forgot_password_uniform}
use hexagonal_backend.Command.Logout
use hexagonal_backend.Command.Logout.Redirect.{logout_answers}
use hexagonal_backend.Command.ResetPassword.{reset_user}
use hexagonal_backend.Command.ResetPassword.Effects.{reset_user_lem}
use hexagonal_backend.Define.Keys.{authorize_request_key}
use hexagonal_backend.Entity.AuthRequest.{max_failed_attempts, authorize_request_ttl}
use hexagonal_backend.Entity.Types.{User, UpdateProfileArgs}
use hexagonal_backend.Entity.User.{
  lockout_duration, record_failed_login, validate_password, update_profile,
}
use hexagonal_backend.Entity.User.Profile.{update_profile_lem}
use hexagonal_backend.Entity.User.Lockout.{lockout_schedule, record_failed_login_lem, after_failure}
use hexagonal_backend.Env.{healthy}
use hexagonal_backend.Errors.{err_max_login_attempts_exceeded, err_invalid_email_or_password}
use hexagonal_backend.World.{request}
use hexagonal_backend.World.Map.{lookup}
use hexagonal_backend.World.Rules.{Answers, Keeps}
use hexagonal_backend.Tests.Fixtures.{env, world, user, session}

reject_credentials_lem_example :
    let (r, v) = reject_credentials {A = String} session (some user) (healthy env) world in
    (leb max_failed_attempts 3 ≡ true
      → (r ≡ err err_max_login_attempts_exceeded) × (v.cache ≡ world.cache))
    × (leb max_failed_attempts 3 ≡ false
        → (r ≡ err err_invalid_email_or_password)
          × (lookup (authorize_request_key "s1") v.cache
              ≡ some (record {
                value = request (record session { failed_attempts = 3 });
                expires_at = some (
                    add
                      (env.time (record_account_failure (some user) (healthy env) world).1.ticks)
                      authorize_request_ttl);
              })))
reject_credentials_lem_example = reject_credentials_lem session (some user) env world (omega arith)

lockout_schedule_example :
    (3 < 6 → lockout_duration 3 ≡ 2 ^ 3 * minute)
    × (5 < 3 → lockout_duration 3 ≡ hour)
    × (lockout_duration 2 ≤ lockout_duration 3)
lockout_schedule_example = lockout_schedule 2 3 (omega arith)

record_failed_login_lem_example :
    (record_failed_login user env world).0 ≡ ok (after_failure env user 0)
record_failed_login_lem_example = record_failed_login_lem user env world (omega arith)

abbrev joining : CreateUser.Command
joining = record { username = "bob"; nickname = "bob"; email = "bob@app"; password = "Passw0rd!" }

create_user-EmailsUnique_example : Keeps EmailsUnique (CreateUser.execute joining)
create_user-EmailsUnique_example = create_user-EmailsUnique joining

abbrev reset_row : User
reset_row = record user {
  password = "N3w-pass!";
  password_reset_token_hash = none;
  password_reset_expires_at = none;
  sessions_invalidated_at = some (hour + 2);
  updated_at = hour + 3;
}

resets : (reset_user "N3w-pass!" user env world).0 ≡ ok (reset_row, ("u1", hour + 2))
unfolding reset_user hexagonal_backend.Entity.User.is_reset_token_expired
    hexagonal_backend.Entity.User.set_password validate_password
    hexagonal_backend.Entity.User.clear_password_reset_token
resets = refl

reset_user_lem_example :
    (is_ok (validate_password env "N3w-pass!") ≡ true)
    × (reset_row.password_reset_token_hash ≡ none)
    × (reset_row.password_reset_expires_at ≡ none)
    × (reset_row.sessions_invalidated_at ≡ some (hour + 2))
    × ("u1" ≡ user.id)
    × (reset_row.id ≡ user.id)
    × (reset_row.email ≡ user.email)
reset_user_lem_example = reset_user_lem "N3w-pass!" user reset_row "u1" (hour + 2) env world resets

forgot_password_uniform_example : Answers (ForgotPassword.execute "ann@app")
forgot_password_uniform_example = forgot_password_uniform "ann@app"

abbrev leaving : Logout.Command
leaving = record { access_token = some "jwt"; post_logout_redirect_uri = some "https://elsewhere" }

logout_answers_example :
    (target : String) × ((Logout.execute leaving env world).0 ≡ ok target)
    × ((target ≡ "")
        ⊎ ((leaving.post_logout_redirect_uri ≡ some target)
            × (contains env.post_logout_redirect_allowlist target ≡ true)))
    × ((uri : String)
        → leaving.post_logout_redirect_uri ≡ some uri
        → contains env.post_logout_redirect_allowlist uri ≡ true
        → target ≡ uri)
logout_answers_example = logout_answers leaving env world

abbrev moving : UpdateProfileArgs
moving = record { username = none; nickname = none; email = some "ann@new" }

abbrev moved : User
moved = record user { email = "ann@new"; email_verified = false; updated_at = hour }

moves : (update_profile user moving env world).0 ≡ ok moved
unfolding update_profile hexagonal_backend.Entity.User.set_email
moves = refl

update_profile_lem_example :
    (moved.id ≡ user.id)
    × (moved.password ≡ user.password)
    × (moved.email_verified ≡ true → (moved.email ≡ user.email) × (user.email_verified ≡ true))
update_profile_lem_example = update_profile_lem user moved moving env world moves
