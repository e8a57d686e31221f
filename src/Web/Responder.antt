-- ===== src/Web/Responder.antt =====
-- handler/web/responder/http_responder.go
pub mod Shown
use Prim.Native.String.{◌++◌}
use hexagonal_backend.Common.{
  ℕ, String, Bool, true, false, ◌&&◌, Option, none, some, List, [], ◌∷◌, if◌then◌else◌, ◌==◌, not,
  is_some,
}
use hexagonal_backend.Common.{◌++◌ as append}
use hexagonal_backend.Common.Text.{str_eq, is_empty}
use hexagonal_backend.Web.{
  Context, Cookie, SentCookie, SameSite, strict, Body, json, http_response, oauth2_error_body, html,
  empty, header, flag_of, cookie_secure_key, oauth2_error_format_key,
}
use hexagonal_backend.Web.AppError.{AppError, message, code_of, status_of, oauth2_of}

-- What the responder asks of an answer: CookieResult, RedirectResult, HTMLResult, NoStoreResult, and
-- its JSON text.
pub record Answer : Type 0 where
  pub set_cookies : List Cookie
  pub url : Option String
  pub page : Option (String × List (String × String))
  pub no_store : Bool
  pub json_text : String

abbrev template_ext : String
template_ext = ".html"

-- noStore
unfoldable pub forbid_store : Context → Context
forbid_store c =
    header "Expires" "0" (header "Pragma" "no-cache" (header "Cache-Control" "no-store" c))

-- redirectStatus
unfoldable pub redirect_status : Context → ℕ
redirect_status c = if str_eq c.request.method "POST" then 303 else 302

-- redirect
unfoldable pub redirect : ℕ → String → Context → Context
redirect code target c = record (header "Content-Length" "0" (header "Location" target c)) {
  status = code;
}

-- The loop of setCookies.
unfoldable pub send_cookies : Bool → List Cookie → List SentCookie
send_cookies is_secure [] = []
send_cookies is_secure (k ∷ rest) =
    record {
      cookie = k;
      sent_same_site = elim k.same_site [ some s ↦ s | none ↦ strict ];
      secure = is_secure;
    }
    ∷ send_cookies is_secure rest

-- setCookies
unfoldable pub set_cookies : List Cookie → Context → Context
unfolding send_cookies
set_cookies cookies c = record c {
  cookies = append c.cookies (send_cookies (flag_of (c.keys cookie_secure_key)) cookies);
}

abbrev pub render : ℕ → Body → Context → Context
render code content c = record c { status = code; body = content }

-- oauth2Format
abbrev pub oauth2_format : Context → Bool
oauth2_format c = flag_of (c.keys oauth2_error_format_key)

abbrev pub or_else {ℓ} : {A : Type ℓ} → A → Option A → A
or_else default none = default
or_else default (some a) = a

-- The code that failOAuth2 shows.
unfoldable pub oauth2_code : AppError → String
unfolding oauth2_of
oauth2_code e = elim (oauth2_of e) [
  | none ↦ "invalid_request"
  | some (name, desc) ↦ if is_empty name then "invalid_request" else name
]

-- failOAuth2
unfoldable pub fail_oauth2 : String → AppError → Context → Context
unfolding oauth2_code status_of oauth2_of
fail_oauth2 unknown e c =
    let code = or_else 400 (status_of e) in
    let desc : String = elim (oauth2_of e) [ none ↦ message unknown e | some (name, d) ↦ d ] in
    let challenged =
      if str_eq (oauth2_code e) "invalid_client" && (code == 401)
      then header "WWW-Authenticate" "Basic realm=\"oauth2\"" c
      else c in
    render code (oauth2_error_body (oauth2_code e) desc) challenged

-- fail
unfoldable pub fail : String → AppError → Bool → Context → Context
unfolding fail_oauth2 status_of code_of
fail unknown e true c =
    render (elim (code_of e) [ none ↦ 500 | some _ ↦ or_else 500 (status_of e) ])
      (html ("error" ++ template_ext)
        (("title", "Something went wrong") ∷ ("message", message unknown e) ∷ []))
      c
fail unknown e false c = if oauth2_format c then fail_oauth2 unknown e c else elim (code_of e) [
  | some code ↦ render (or_else 500 (status_of e)) (http_response (message unknown e) code) c
  | none ↦ render 500 (http_response "internal server error" 90000) c
]

-- Response, without an error
unfoldable pub succeed : Answer → Context → Context
unfolding set_cookies redirect redirect_status forbid_store
succeed a c =
    let c' = set_cookies a.set_cookies c in
    if is_some a.url && not (is_empty (or_else "" a.url))
    then (let c'' = forbid_store c' in redirect (redirect_status c'') (or_else "" a.url) c'')
    else elim a.page [
      | some (name, content) ↦
          render 200 (html (name ++ template_ext) content)
            (if a.no_store then forbid_store c' else c')
      | none ↦ render 200 (json a.json_text) c'
    ]

-- ResponseWithHTML
unfoldable pub response_with_html : String → String → Context → Context
response_with_html name title c = render 200 (html (name ++ template_ext) (("title", title) ∷ [])) c
