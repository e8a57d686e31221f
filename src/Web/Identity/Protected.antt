-- ===== src/Web/Identity/Protected.antt =====
-- What the bearer check in front of a use case gives it.
use hexagonal_backend.Common.{
  String, ◌≡◌, refl, ap, ◌∙◌, true, false, Option, none, some, List, ◌∷◌,
}
use hexagonal_backend.Env.{Claims}
use hexagonal_backend.Web.{Context, text, http_response, header, abort}
use hexagonal_backend.Web.AppError.{unauthorized, with_status, code_of, status_of}
use hexagonal_backend.Web.Handler.{Handler, run_chain}
use hexagonal_backend.Web.Handler.Runs.{run_chain_aborted, run_chain_next}
use hexagonal_backend.Web.Identity.{authenticate, set_bearer_identity}
use hexagonal_backend.Web.Responder.{fail, oauth2_format}

module _ (verify : String → Option (Claims × String)) (unknown : String) (rest : List Handler)
    (c : Context) where
  -- Behind the bearer check nothing is run without an accepted token: on a request that is not flagged
  -- for OAuth2, the answer is 401, with the challenge.
  pub rejected_without_token :
      verify c.request.authorization ≡ none
      → oauth2_format c ≡ false
      → let done = run_chain (authenticate verify unknown ∷ rest) c in
        (done.executed ≡ c.executed)
        × (done.status ≡ 401)
        × (done.headers "WWW-Authenticate" ≡ some "Bearer")
        × (done.body ≡ http_response "invalid token" unauthorized)
  unfolding authenticate fail code_of status_of
  rejected_without_token absent plain =
      let refused : Context = abort (
        fail unknown (with_status unauthorized 401 "invalid token") false
          (header "WWW-Authenticate" "Bearer" c)) in
      let same : authenticate verify unknown c ≡ refused = rw (absent, authenticate) refl in
      let stopped : (authenticate verify unknown c).aborted ≡ true = ap (λ k. k.aborted) same in
      rw (run_chain_aborted (authenticate verify unknown) rest c stopped, same)
        (rw plain (refl, refl, refl, refl))

  -- With an accepted token the rest of the chain is run with the token's subject and grant as the
  -- user and the grant of the request, if nothing has aborted it before.
  pub accepted_identity :
      (claims : Claims) (token : String)
      → verify c.request.authorization ≡ some (claims, token)
      → c.aborted ≡ false
      → (identified : Context) × (run_chain (authenticate verify unknown ∷ rest) c
          ≡ run_chain rest identified)
        × (identified.keys "user_id" ≡ some (text claims.subject))
        × (identified.keys "grant_id" ≡ some (text claims.grant_id))
        × (identified.keys "access_token" ≡ some (text token))
        × (identified.request ≡ c.request)
  unfolding authenticate set_bearer_identity
  accepted_identity claims token there going =
      let same : authenticate verify unknown c ≡ set_bearer_identity claims token c =
        rw (there, authenticate) refl in
      (
        set_bearer_identity claims token c,
        run_chain_next (authenticate verify unknown) rest c (ap (λ k. k.aborted) same ∙ going)
            ∙ ap (λ k. run_chain rest k) same,
        refl,
        refl,
        refl,
        refl,
      )
