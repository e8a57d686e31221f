-- ===== src/Command/ForgotPassword/Answers.antt =====
-- The answer of the forgotten-password form.
use hexagonal_backend.Common.{refl, String}
use hexagonal_backend.Entity.Types.{User}
use hexagonal_backend.Entity.User.{set_password_reset_token}
use hexagonal_backend.World.Rules.{Answers, answers}
use hexagonal_backend.Command.ForgotPassword.{
  execute, rate_limited, start_reset, reset_with, deliver, rate_key,
}

deliver-Answers : (user : User) (token : String) → Answers (deliver user token)
unfolding deliver
deliver-Answers user token = search answers

-- The limit is a yes or a no: a failing counter limits nothing.
rate_limited-Answers : (email : String) → Answers (rate_limited email)
unfolding rate_limited rate_key
rate_limited-Answers email = search answers

set_password_reset_token-Answers :
    (user : User) (token : String) (ttl : _) → Answers (set_password_reset_token user token ttl)
unfolding set_password_reset_token
set_password_reset_token-Answers user token ttl = record { answered = λ _ _. refl }

reset_with-Answers : (user : User) (token : String) → Answers (reset_with user token)
unfolding reset_with
reset_with-Answers user token = search (answers, deliver-Answers, set_password_reset_token-Answers)

start_reset-Answers : (user : User) → Answers (start_reset user)
unfolding start_reset
start_reset-Answers user = search (answers, reset_with-Answers)

-- The request of the forgotten-password form never ends in an error, whatever the address, the
-- state and the faults: the answer does not tell whether the address is known.
pub forgot_password_uniform : (email : String) → Answers (execute email)
unfolding execute
forgot_password_uniform email = search (answers, rate_limited-Answers, start_reset-Answers)
