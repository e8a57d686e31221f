-- ===== src/Web.antt =====
-- handler/web, core/web, core/usecase and the HTTP side of modules/auth: from a request to an answer.
-- gin's context is a record: what the handlers read of the request, the keys that they set for one
-- another, and the response. `executed` lists the use cases that were run.
pub mod AppError
pub mod Responder
pub mod Dispatcher
pub mod Handler
pub mod Headers
pub mod GrantType
pub mod Identity
pub mod Router
use hexagonal_backend.Common.{ℕ, String, Bool, true, false, Option, none, some, List, if◌then◌else◌}
use hexagonal_backend.Common.Text.{str_eq}

-- What gin keeps under a key.
pub data KeyValue : Type 0 where
  flag : Bool → KeyValue
  text : String → KeyValue

-- http.SameSite, as far as it is used.
pub data SameSite : Type 0 where
  strict lax : SameSite

-- web.Cookie; a negative MaxAge deletes the cookie.
pub record Cookie : Type 0 where
  pub name : String
  pub value : String
  pub max_age : Option ℕ
  pub same_site : Option SameSite

-- What SetCookie sends: the cookie, its SameSite attribute, and whether it is Secure. The path is /
-- and the cookie is HttpOnly.
pub record SentCookie : Type 0 where
  pub cookie : Cookie
  pub sent_same_site : SameSite
  pub secure : Bool

pub data Body : Type 0 where
  empty : Body
  json : String → Body
  http_response : String → ℕ → Body
  oauth2_error_body : String → String → Body
  html : String → List (String × String) → Body

pub record Request : Type 0 where
  pub method : String
  pub authorization : String
  pub basic_auth : Option (String × String)
  -- the form values of the body, and its media type and bytes where these can be read
  pub post_form : String → String
  pub media_type : Option String
  pub json_body : Option String

pub record Context : Type 0 where
  pub request : Request
  pub keys : String → Option KeyValue
  pub status : ℕ
  pub headers : String → Option String
  pub cookies : List SentCookie
  pub body : Body
  pub aborted : Bool
  pub executed : List String

abbrev pub put : {A : Type 0} → String → A → (String → Option A) → String → Option A
put key value old k = if str_eq key k then some value else old k

-- ctx.Set
abbrev pub set_key : String → KeyValue → Context → Context
set_key key value c = record c { keys = put key value c.keys }

-- ctx.Header
abbrev pub header : String → String → Context → Context
header name value c = record c { headers = put name value c.headers }

-- ctx.Abort
abbrev pub abort : Context → Context
abort c = record c { aborted = true }

-- v, _ := ctx.Get(key); b, _ := v.(bool)
abbrev pub flag_of : Option KeyValue → Bool
flag_of (some (flag b)) = b
flag_of (some (text t)) = false
flag_of none = false

abbrev pub cookie_secure_key : String
cookie_secure_key = "cookie_secure"

abbrev pub oauth2_error_format_key : String
oauth2_error_format_key = "oauth2_error_format"

-- A request that no handler has seen.
abbrev pub fresh : Request → Context
fresh req = record {
  request = req;
  keys = λ k. none;
  status = 200;
  headers = λ k. none;
  cookies = List.[];
  body = empty;
  aborted = false;
  executed = List.[];
}
