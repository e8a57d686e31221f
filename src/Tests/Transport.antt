-- ===== src/Tests/Transport.antt =====
-- The HTTP side at concrete requests.
use hexagonal_backend.Common.{
  String, ◌≡◌, refl, Bool, true, false, none, some, [], ◌∷◌, ◌==◌, contains, if◌then◌else◌,
}
use hexagonal_backend.Errors.{invalid_client, plain}
use hexagonal_backend.Errors.Registry.{http_status_for, oauth2_code_for}
use hexagonal_backend.Tests.Fixtures.{env}
use hexagonal_backend.Web.{
  Context, Request, fresh, set_key, flag, oauth2_error_format_key, oauth2_error_body, http_response,
}
use hexagonal_backend.Web.AppError.{domain, map_http_error, unauthorized, text_of}
use hexagonal_backend.Web.Dispatcher.{UseCase, answers}
use hexagonal_backend.Web.Handler.{Module, run_chain, bind_error, handle}
use hexagonal_backend.Web.Headers.{security_headers}
use hexagonal_backend.Web.Identity.{authenticate}
use hexagonal_backend.Web.Identity.Protected.{rejected_without_token}
use hexagonal_backend.Web.Responder.{Answer, fail}
use hexagonal_backend.Web.Responder.Shown.{mapped_error_shown}
use hexagonal_backend.Web.Router.{
  Router, token_handlers, revoke_handlers, introspect_handlers, oidc_routes, v3_routes,
  allowed_grant_types,
}
use hexagonal_backend.Web.Router.Failures.{oauth2_endpoints_errors}
use hexagonal_backend.Web.Router.Safe.{Every, answer_of, ErrorsShown, private_answers_not_stored}
use hexagonal_backend.Web.Router.Token.{token_runs_one, requested, command_for, ready}

-- A token request by a form, for the password grant.
abbrev asking : Request
asking = record {
  method = "POST";
  authorization = "";
  basic_auth = some ("app", "secret");
  post_form = λ name. if name_is name then "password" else "";
  media_type = some "application/x-www-form-urlencoded";
  json_body = none;
}
  where
    name_is : String → Bool
    name_is name = contains ("grant_type" ∷ []) name

abbrev tokens : Answer
tokens = record { set_cookies = []; url = none; page = none; no_store = false; json_text = "{}" }

abbrev password_grant : UseCase
password_grant = record { bind = λ c. none; validate = λ c. none; execute = λ c. answers tokens }

abbrev app_module : Module
app_module = record { registry = ("GetTokenQuery", password_grant) ∷ []; unknown = "failure" }

abbrev router : Router
router = record { app = app_module; env = env; verify = λ h. none; decode_grant_type = λ b. none }

oauth2_endpoints_errors_example :
    let begun = security_headers (fresh asking) in
    ErrorsShown (run_chain (token_handlers router) begun)
    × ErrorsShown (run_chain (revoke_handlers router) begun)
    × ErrorsShown (run_chain (introspect_handlers router) begun)
oauth2_endpoints_errors_example = oauth2_endpoints_errors router asking

token_runs_one_example :
    let done = run_chain (token_handlers router) (security_headers (fresh asking)) in
    (done.aborted ≡ true)
    × (done.executed ≡ (
        if contains allowed_grant_types (requested router asking)
        then elim (bind_error app_module
            (command_for (requested router asking))
            (ready router asking)) [
              | none ↦ command_for (requested router asking) ∷ []
              | some e ↦ []
            ]
        else []))
token_runs_one_example = token_runs_one router asking

private_answers_not_stored_example :
    ((run_chain (token_handlers router) (security_headers (fresh asking))).headers "Cache-Control"
      ≡ some "no-store")
    × Every
        (λ r. (answer_of r asking).headers "Cache-Control" ≡ some "no-store")
        (oidc_routes router)
    × Every (λ r. (answer_of r asking).headers "Cache-Control" ≡ some "no-store") (v3_routes router)
private_answers_not_stored_example = private_answers_not_stored router asking

abbrev flagged_request : Context
flagged_request = set_key oauth2_error_format_key (flag true) (fresh asking)

mapped_error_shown_example :
    let shown =
      fail "failure"
        (map_http_error "failure"
          (domain (hexagonal_backend.Errors.coded invalid_client (plain "bad"))))
        false
        flagged_request in
    (shown.status ≡ http_status_for invalid_client)
    × (shown.body
        ≡ oauth2_error_body (oauth2_code_for invalid_client) (text_of "failure" (plain "bad")))
    × (shown.headers "WWW-Authenticate" ≡ (
        if invalid_client == invalid_client
        then some "Basic realm=\"oauth2\""
        else flagged_request.headers "WWW-Authenticate"))
mapped_error_shown_example =
    mapped_error_shown "failure" invalid_client (plain "bad") flagged_request refl

rejected_without_token_example :
    let done =
      run_chain
        (authenticate router.verify "failure" ∷ handle app_module false "GetProfileQuery" ∷ [])
        (fresh asking) in
    (done.executed ≡ [])
    × (done.status ≡ 401)
    × (done.headers "WWW-Authenticate" ≡ some "Bearer")
    × (done.body ≡ http_response "invalid token" unauthorized)
rejected_without_token_example =
    rejected_without_token router.verify "failure" (handle app_module false "GetProfileQuery" ∷ [])
      (fresh asking) refl refl
