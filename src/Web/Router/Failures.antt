-- ===== src/Web/Router/Failures.antt =====
-- The form of the errors of the OAuth2 endpoints.
use hexagonal_backend.Common.{refl, List, [], ◌∷◌, arith}
use hexagonal_backend.Web.{Request, fresh}
use hexagonal_backend.Web.Handler.{Handler, run_chain}
use hexagonal_backend.Web.Handler.Keeps.{◌▹◌, AllKeep, Keeps, run_chain-Keeps}
use hexagonal_backend.Web.Headers.{security_headers, oauth2_errors}
use hexagonal_backend.Web.Router.{Router, token_handlers, revoke_handlers, introspect_handlers}
use hexagonal_backend.Web.Router.Chains.{credentials-Keeps, optional-Keeps}
use hexagonal_backend.Web.Router.Safe.{
  Flagged, Flagged-IsAnswerProperty, ErrorsShown, same-ErrorsShown, runs-Keeps, token_handlers-keep,
}

-- Once a request has passed the rate limit, the endpoints of OAuth2 answer errors in the form of
-- OAuth2: where a token request, a revocation or an introspection is answered with a status from 400
-- on, the body is an OAuth2 error with a code, and no answer has the other form of errors.
pub oauth2_endpoints_errors :
    (ro : Router) (req : Request)
    → let start = security_headers (fresh req) in
      ErrorsShown (run_chain (token_handlers ro) start)
      × ErrorsShown (run_chain (revoke_handlers ro) start)
      × ErrorsShown (run_chain (introspect_handlers ro) start)
unfolding security_headers oauth2_errors run_chain
oauth2_endpoints_errors ro req = (
  shown (tail (token_handlers ro))
      (token_handlers-keep Flagged Flagged-IsAnswerProperty ro flags).1,
  shown (tail (revoke_handlers ro)) (
      optional-Keeps Flagged Flagged-IsAnswerProperty ro.verify
      ▹ credentials-Keeps Flagged Flagged-IsAnswerProperty
      ▹ runs-Keeps Flagged Flagged-IsAnswerProperty ro "RevokeTokenCommand"
      ▹ tt),
  shown (tail (introspect_handlers ro)) (
      credentials-Keeps Flagged Flagged-IsAnswerProperty
      ▹ runs-Keeps Flagged Flagged-IsAnswerProperty ro "IntrospectTokenQuery"
      ▹ tt),
)
  where
    tail : List Handler → List Handler
    tail [] = []
    tail (h ∷ rest) = rest

    flags : Keeps Flagged oauth2_errors
    flags = record { keep = λ c p. (refl, same-ErrorsShown c (oauth2_errors c) refl refl p.1) }

    shown :
        (chain : List Handler)
        → AllKeep Flagged chain
        → ErrorsShown (run_chain chain (oauth2_errors (security_headers (fresh req))))
    shown chain ks =
        (run_chain-Keeps Flagged chain ks (oauth2_errors (security_headers (fresh req))) (
          refl,
          record { not_other_form = refl; error_form = λ bad. absurd (ground (arith, bad)) },
        )).1
