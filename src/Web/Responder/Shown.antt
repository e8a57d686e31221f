-- ===== src/Web/Responder/Shown.antt =====
-- What the responder shows.
use hexagonal_backend.Common.{
  String, ◌≡◌, refl, Bool, true, false, ◌&&◌, not, some, List, [], ◌∷◌, if◌then◌else◌, ◌==◌, arith,
}
use hexagonal_backend.Common.Text.{str_eq, is_empty}
use hexagonal_backend.Errors.{ErrCode, Error, coded, invalid_client}
use hexagonal_backend.Errors.Challenge.{IsShown, code-IsShown}
use hexagonal_backend.Errors.Registry.{http_status_for, oauth2_code_for}
use hexagonal_backend.Web.{
  Cookie, Context, oauth2_error_body, http_response, flag_of, cookie_secure_key, SentCookie,
}
use hexagonal_backend.Web.AppError.{map_http_error, status_of, oauth2_of, text_of, domain, foreign}
use hexagonal_backend.Web.Responder.{
  Answer, fail, fail_oauth2, oauth2_format, oauth2_code, succeed, redirect, redirect_status,
  forbid_store, set_cookies, send_cookies,
}

-- On a request that is flagged for OAuth2, an error of a use case is shown with the status and the
-- OAuth2 code that the registry has for its code, and asks for credentials exactly if its code is
-- invalid_client.
pub mapped_error_shown :
    (unknown : String) (c : ErrCode) (cause : Error) (ctx : Context)
    → oauth2_format ctx ≡ true
    → let shown = fail unknown (map_http_error unknown (domain (coded c cause))) false ctx in
      (shown.status ≡ http_status_for c)
      × (shown.body ≡ oauth2_error_body (oauth2_code_for c) (text_of unknown cause))
      × (shown.headers "WWW-Authenticate" ≡ (
          if c == invalid_client
          then some "Basic realm=\"oauth2\""
          else ctx.headers "WWW-Authenticate"))
unfolding fail map_http_error text_of fail_oauth2 oauth2_of oauth2_code status_of
mapped_error_shown unknown c cause ctx flagged = (
  rw (flagged, shown.status) refl,
  rw (flagged, shown.named) refl,
  rw (flagged, shown.status, shown.named, shown.challenge) (ground arith),
)
  where
    shown : IsShown c
    shown = code-IsShown c

-- A failure on a request that is not flagged and not a page: a binding error, a recovered panic or
-- any other error without a code is an internal server error, whose text is not shown.
pub foreign_error_shown :
    (unknown msg : String) (ctx : Context)
    → oauth2_format ctx ≡ false
    → let shown = fail unknown (map_http_error unknown (foreign msg)) false ctx in
      (shown.status ≡ 500) × (shown.body ≡ http_response "internal server error" 90000)
unfolding fail map_http_error
foreign_error_shown unknown msg ctx plain = rw plain (refl, refl)

abbrev all_secure : Bool → List SentCookie → Bool
all_secure b [] = true
all_secure b (k ∷ rest) = (if k.secure then b else not b) && all_secure b rest

send_cookies-secure :
    (b : Bool) (cookies : List Cookie) → all_secure b (send_cookies b cookies) ≡ true
unfolding send_cookies
send_cookies-secure b [] = refl
send_cookies-secure b (k ∷ rest) = ground (arith, send_cookies-secure b rest)

-- The answer of a use case that gives a URL is a redirection to it that is not stored, by 303 after
-- POST and by 302 otherwise; if no cookie is set before, every cookie is sent as the configuration says about Secure.
pub redirect_shown :
    (a : Answer) (target : String) (ctx : Context)
    → a.url ≡ some target
    → is_empty target ≡ false
    → ctx.cookies ≡ []
    → let shown = succeed a ctx in
      (shown.status ≡ (if str_eq ctx.request.method "POST" then 303 else 302))
      × (shown.headers "Location" ≡ some target)
      × (shown.headers "Cache-Control" ≡ some "no-store")
      × (all_secure (flag_of (ctx.keys cookie_secure_key)) shown.cookies ≡ true)
unfolding succeed redirect redirect_status forbid_store set_cookies
redirect_shown a target ctx there full none_yet = (
  rw (there, full) refl,
  rw (there, full) refl,
  rw (there, full) refl,
  rw (there, full, none_yet)
      (send_cookies-secure (flag_of (ctx.keys cookie_secure_key)) a.set_cookies),
)
