-- ===== src/Web/Router/Safe.antt =====
-- What every answer of a route has.
use hexagonal_backend.Common.{
  String, ◌≡◌, refl, Bool, true, false, not, leb, Option-cases, Bool-cases, inl, inr, some, List,
  [], ◌∷◌, arith,
}
use hexagonal_backend.Common.Text.{is_empty}
use hexagonal_backend.Web.{Context, Request, fresh, Body, http_response, oauth2_error_body}
use hexagonal_backend.Web.AppError.{AppError, oauth2_of}
use hexagonal_backend.Web.GrantType.{grant_type_is}
use hexagonal_backend.Web.Handler.{run_chain, handle}
use hexagonal_backend.Web.Router.Chains.{
  grant_type-Keeps, credentials-Keeps, access_token-Keeps, authenticate-Keeps, optional-Keeps,
}
use hexagonal_backend.Web.Handler.Keeps.{
  ◌▹◌, FailKeeps, Keeps, AllKeep, IsAnswerProperty, run_chain-Keeps, handle-Keeps, handle_if-Keeps,
}
use hexagonal_backend.Web.Headers.{security_headers, cache_public, oauth2_errors}
use hexagonal_backend.Web.Identity.{authenticate}
use hexagonal_backend.Web.Responder.{
  fail, fail_oauth2, succeed, set_cookies, redirect, forbid_store, response_with_html,
  oauth2_format, oauth2_code, redirect_status, Answer,
}
use hexagonal_backend.Web.Router.{
  Router, Route, allowed_grant_types, grant_type_refresh_token, grant_type_auth_code,
  grant_type_password, public_routes, oidc_routes, v3_routes, token_handlers,
}

-- The answer cannot be framed.
abbrev Framed : Context → Type 0
Framed c = c.headers "X-Frame-Options" ≡ some "DENY"

-- The answer is not stored.
abbrev NotStored : Context → Type 0
NotStored c = c.headers "Cache-Control" ≡ some "no-store"

fail-Framed :
    (u : String) (e : AppError) (is_html : Bool) (c : Context)
    → Framed c
    → Framed (fail u e is_html c)
unfolding fail fail_oauth2
fail-Framed u e true c p = p
fail-Framed u e false c p = ground (arith, p)

Framed-IsAnswerProperty : IsAnswerProperty Framed
unfolding succeed set_cookies redirect forbid_store
Framed-IsAnswerProperty = record {
  ran = λ c names p. p;
  sets = λ key value c other p. p;
  challenged = λ c p. p;
  aborted = λ c p. p;
  succeeds = λ a c p. ground (arith, p);
  fails = λ u e c p. fail-Framed u e false c p;
}

fail-NotStored :
    (u : String) (e : AppError) (c : Context) → NotStored c → NotStored (fail u e false c)
unfolding fail fail_oauth2
fail-NotStored u e c p = ground (arith, p)

NotStored-IsAnswerProperty : IsAnswerProperty NotStored
unfolding succeed set_cookies redirect forbid_store
NotStored-IsAnswerProperty = record {
  ran = λ c names p. p;
  sets = λ key value c other p. p;
  challenged = λ c p. p;
  aborted = λ c p. p;
  succeeds = λ a c p. ground (arith, p);
  fails = fail-NotStored;
}

-- Errors have the OAuth2 form, with a code.
abbrev is_oauth2_error : Body → Bool
is_oauth2_error (oauth2_error_body name desc) = not (is_empty name)
is_oauth2_error b = false

abbrev is_http_response : Body → Bool
is_http_response (http_response msg code) = true
is_http_response b = false

-- An answer with the status of an error is an OAuth2 error, and none has the other form.
pub record ErrorsShown (c : Context) : Type 0 where
  pub not_other_form : is_http_response c.body ≡ false
  pub error_form : leb 400 c.status ≡ true → is_oauth2_error c.body ≡ true

abbrev pub Flagged : Context → Type 0
Flagged c = (oauth2_format c ≡ true) × ErrorsShown c

pub same-ErrorsShown :
    (c c' : Context) → c'.body ≡ c.body → c'.status ≡ c.status → ErrorsShown c → ErrorsShown c'
same-ErrorsShown c c' body status h = record {
  not_other_form = ground (arith, body, h.not_other_form);
  error_form = λ bad. rw body (h.error_form (ground (arith, status, bad)));
}

oauth2_code-given : (e : AppError) → is_empty (oauth2_code e) ≡ false
unfolding oauth2_code
oauth2_code-given e = elim (Option-cases (oauth2_of e)) [
  | inl unnamed ↦ rw (unnamed, oauth2_code) refl
  | inr ((name, desc), named) ↦
      rw (named, oauth2_code)
        (elim (Bool-cases (is_empty name)) [
          | inl missing ↦ rw missing refl
          | inr given ↦ rw (given, given) refl
        ])
]

fail-Flagged : (u : String) (e : AppError) (c : Context) → Flagged c → Flagged (fail u e false c)
unfolding fail fail_oauth2
fail-Flagged u e c p = (
  ground (arith, p.0),
  record {
    not_other_form = ground (arith, p.0);
    error_form = λ bad. ground (arith, p.0, oauth2_code-given e);
  },
)

succeed-Flagged : (a : Answer) (c : Context) → Flagged c → Flagged (succeed a c)
unfolding succeed set_cookies redirect redirect_status forbid_store
succeed-Flagged a c p = (
  ground (arith, p.0),
  record {
    not_other_form = ground (arith, p.1.not_other_form);
    error_form = λ bad. absurd (ground (arith, bad));
  },
)

pub Flagged-IsAnswerProperty : IsAnswerProperty Flagged
Flagged-IsAnswerProperty = record {
  ran = λ c names p. (p.0, same-ErrorsShown c _ refl refl p.1);
  sets = λ key value c other p. (ground (arith, p.0, other), same-ErrorsShown c _ refl refl p.1);
  challenged = λ c p. (p.0, same-ErrorsShown c _ refl refl p.1);
  aborted = λ c p. (p.0, same-ErrorsShown c _ refl refl p.1);
  succeeds = succeed-Flagged;
  fails = fail-Flagged;
}

-- A property of every route of a list.
abbrev pub Every : (Route → Type 0) → List Route → Type 0
Every P [] = Unit {0}
Every P (r ∷ rest) = P r × Every P rest

module _ (P : Context → Type 0) (is : IsAnswerProperty P) (ro : Router) where
  pub runs-Keeps : (name : String) → Keeps P (handle ro.app false name)
  runs-Keeps name = handle-Keeps P is ro.app false name is.fails

  pub token_handlers-keep : Keeps P oauth2_errors → AllKeep P (token_handlers ro)
  token_handlers-keep flags =
      flags
      ▹ grant_type-Keeps P is ro.decode_grant_type ro.app.unknown allowed_grant_types
      ▹ credentials-Keeps P is
      ▹ handle_if-Keeps P is ro.app (grant_type_is grant_type_refresh_token) "RefreshTokenCommand"
      ▹ handle_if-Keeps P is ro.app (grant_type_is grant_type_auth_code) "ExchangeCodeCommand"
      ▹ handle_if-Keeps P is ro.app (grant_type_is grant_type_password) "GetTokenQuery"
      ▹ tt

  authenticated-keep :
      (name : String)
      → AllKeep P (authenticate ro.verify ro.app.unknown ∷ handle ro.app false name ∷ [])
  authenticated-keep name = authenticate-Keeps P is ro.verify ro.app.unknown ▹ runs-Keeps name ▹ tt

  oidc_routes-keep : Keeps P oauth2_errors → Every (λ r. AllKeep P r.chain) (oidc_routes ro)
  oidc_routes-keep flags =
      authenticated-keep "GetProfileQuery"
      ▹ authenticated-keep "GetProfileQuery"
      ▹ (access_token-Keeps P is ro.env ▹ runs-Keeps "LogoutCommand" ▹ tt)
      ▹ (access_token-Keeps P is ro.env ▹ runs-Keeps "LogoutCommand" ▹ tt)
      ▹ (flags
          ▹ optional-Keeps P is ro.verify
          ▹ credentials-Keeps P is
          ▹ runs-Keeps "RevokeTokenCommand"
          ▹ tt)
      ▹ (flags ▹ credentials-Keeps P is ▹ runs-Keeps "IntrospectTokenQuery" ▹ tt)
      ▹ authenticated-keep "GetProfileQuery"
      ▹ tt

  public_routes-keep :
      FailKeeps P true
      → Keeps P oauth2_errors
      → Keeps P (cache_public "300")
      → Keeps P (response_with_html "sign_up" "Create Account")
      → Every (λ r. AllKeep P r.chain) (public_routes ro)
  public_routes-keep pages flags cached page =
      (handle-Keeps P is ro.app true "GetSignInQuery" pages ▹ tt)
      ▹ (page ▹ tt)
      ▹ (runs-Keeps "GetAuthorizeQuery" ▹ tt)
      ▹ (runs-Keeps "GetAuthorizeQuery" ▹ tt)
      ▹ (cached ▹ runs-Keeps "GetJWKSQuery" ▹ tt)
      ▹ token_handlers-keep flags
      ▹ token_handlers-keep flags
      ▹ (runs-Keeps "CreateUserCommand" ▹ tt)
      ▹ (runs-Keeps "CreateAuthCodeCommand" ▹ tt)
      ▹ (runs-Keeps "ForgotPasswordCommand" ▹ tt)
      ▹ (runs-Keeps "ResetPasswordCommand" ▹ tt)
      ▹ (cached ▹ runs-Keeps "GetDiscoveryQuery" ▹ tt)
      ▹ (cached ▹ runs-Keeps "GetJWKSQuery" ▹ tt)
      ▹ tt

Every-map :
    {P Q : Route → Type 0} (routes : List Route)
    → ((r : Route) → P r → Q r)
    → Every P routes
    → Every Q routes
Every-map [] f ps = tt
Every-map (r ∷ rest) f ps = (f r ps.0, Every-map rest f ps.1)

-- The answer of a route, behind SecurityHeaders.
abbrev pub answer_of : Route → Request → Context
answer_of r req = run_chain r.chain (security_headers (fresh req))

oauth2_errors-Framed : Keeps Framed oauth2_errors
unfolding oauth2_errors
oauth2_errors-Framed = record { keep = λ c p. p }

cache_public-Framed : Keeps Framed (cache_public "300")
unfolding cache_public
cache_public-Framed = record { keep = λ c p. p }

response_with_html-Framed : Keeps Framed (response_with_html "sign_up" "Create Account")
unfolding response_with_html
response_with_html-Framed = record { keep = λ c p. p }

oauth2_errors-NotStored : Keeps NotStored oauth2_errors
unfolding oauth2_errors
oauth2_errors-NotStored = record { keep = λ c p. p }

-- No route answers with a page that can be framed, whatever the request and the use cases.
pub Every-framed :
    (ro : Router) (req : Request)
    → Every (λ r. (answer_of r req).headers "X-Frame-Options" ≡ some "DENY") (public_routes ro)
      × Every (λ r. (answer_of r req).headers "X-Frame-Options" ≡ some "DENY") (oidc_routes ro)
      × Every (λ r. (answer_of r req).headers "X-Frame-Options" ≡ some "DENY") (v3_routes ro)
unfolding security_headers
Every-framed ro req = (
  Every-map (public_routes ro) framed (
      public_routes-keep Framed Framed-IsAnswerProperty ro (λ u e c p. fail-Framed u e true c p)
        oauth2_errors-Framed cache_public-Framed response_with_html-Framed),
  Every-map (oidc_routes ro) framed
      (oidc_routes-keep Framed Framed-IsAnswerProperty ro oauth2_errors-Framed),
  Every-map (v3_routes ro) framed
      (authenticated-keep Framed Framed-IsAnswerProperty ro "UpdateProfileCommand" ▹ tt),
)
  where
    framed : (r : Route) → AllKeep Framed r.chain → Framed (answer_of r req)
    framed r ks = run_chain-Keeps Framed r.chain ks (security_headers (fresh req)) refl

-- No answer with tokens, of a token request, of a route under /oidc, of /userinfo or of the profile
-- may be stored, whatever the request and the use cases.
pub private_answers_not_stored :
    (ro : Router) (req : Request)
    → ((run_chain (token_handlers ro) (security_headers (fresh req))).headers "Cache-Control"
        ≡ some "no-store")
      × Every (λ r. (answer_of r req).headers "Cache-Control" ≡ some "no-store") (oidc_routes ro)
      × Every (λ r. (answer_of r req).headers "Cache-Control" ≡ some "no-store") (v3_routes ro)
unfolding security_headers
private_answers_not_stored ro req = (
  run_chain-Keeps NotStored (token_handlers ro)
      (token_handlers-keep NotStored NotStored-IsAnswerProperty ro oauth2_errors-NotStored)
      (security_headers (fresh req)) refl,
  Every-map (oidc_routes ro) kept
      (oidc_routes-keep NotStored NotStored-IsAnswerProperty ro oauth2_errors-NotStored),
  Every-map (v3_routes ro) kept
      (authenticated-keep NotStored NotStored-IsAnswerProperty ro "UpdateProfileCommand" ▹ tt),
)
  where
    kept : (r : Route) → AllKeep NotStored r.chain → NotStored (answer_of r req)
    kept r ks = run_chain-Keeps NotStored r.chain ks (security_headers (fresh req)) refl
