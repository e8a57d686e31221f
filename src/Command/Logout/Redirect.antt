-- ===== src/Command/Logout/Redirect.antt =====
-- The answer of a logout.
use hexagonal_backend.Common.{
  ◌≡◌, refl, ap, ◌∙◌, ◌⊎◌, inl, inr, Bool-cases, true, String, Option, none, some, contains, arith,
}
use hexagonal_backend.Common.Result.{ok}
use hexagonal_backend.Env.{Env, Claims}
use hexagonal_backend.Service.Jwt.{is_expired}
use hexagonal_backend.World.{World}
use hexagonal_backend.World.Rules.{Answers, answers}
use hexagonal_backend.Command.Logout.{
  Command, execute, logout_redirect, blacklist_access_token, revoke_grant, revoke_grant_tokens,
  revoke_if_authenticated,
}

blacklist-Answers : (claims : Claims) → Answers (blacklist_access_token claims)
unfolding blacklist_access_token is_expired
blacklist-Answers claims = record { answered = λ env w. ground arith }

revoke_grant_tokens-Answers : (claims : Claims) → Answers (revoke_grant_tokens claims)
unfolding revoke_grant_tokens revoke_grant
revoke_grant_tokens-Answers claims = search answers

revoke-Answers : (token : Option String) → Answers (revoke_if_authenticated token)
unfolding revoke_if_authenticated
revoke-Answers none = search answers
revoke-Answers (some t) = search (answers, blacklist-Answers, revoke_grant_tokens-Answers)

redirect-allowed :
    (env : Env) (asked : Option String)
    → (logout_redirect env asked ≡ "")
      ⊎ ((asked ≡ some (logout_redirect env asked))
          × (contains env.post_logout_redirect_allowlist (logout_redirect env asked) ≡ true))
unfolding logout_redirect
redirect-allowed env none = inl refl
redirect-allowed env (some uri) =
    elim (Bool-cases (contains env.post_logout_redirect_allowlist uri)) [
      | inl allowed ↦ rw allowed (inr (refl, allowed))
      | inr refused ↦ rw refused (inl refl)
    ]

redirect-granted :
    (env : Env) (uri : String)
    → contains env.post_logout_redirect_allowlist uri ≡ true
    → logout_redirect env (some uri) ≡ uri
unfolding logout_redirect
redirect-granted env uri h = rw h refl

-- A logout always answers, whatever its token and the faults. What it redirects to is nothing, or
-- the URI that the request asks for and that the allowlist contains; and a URI of the allowlist
-- that the request asks for is what it redirects to.
pub logout_answers :
    (c : Command) (env : Env) (w : World)
    → (target : String) × ((execute c env w).0 ≡ ok target)
      × ((target ≡ "")
          ⊎ ((c.post_logout_redirect_uri ≡ some target)
              × (contains env.post_logout_redirect_allowlist target ≡ true)))
      × ((uri : String)
          → c.post_logout_redirect_uri ≡ some uri
          → contains env.post_logout_redirect_allowlist uri ≡ true
          → target ≡ uri)
unfolding execute
logout_answers c env w = (
  logout_redirect env c.post_logout_redirect_uri,
  ground (arith, (revoke-Answers c.access_token).answered env w),
  redirect-allowed env c.post_logout_redirect_uri,
  λ uri asked allowed. ap (logout_redirect env) asked ∙ redirect-granted env uri allowed,
)
