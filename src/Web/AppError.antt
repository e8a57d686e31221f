-- ===== src/Web/AppError.antt =====
-- The errors that reach the HTTP side, by the interfaces that they implement: core/error/error.go,
-- core/web/oauth2.go, modules/auth/errors/oauth2.go, and MapHTTPError of modules/auth/module.go.
use hexagonal_backend.Common.{ℕ, String, Option, none, some, if◌then◌else◌, ◌==◌}
use hexagonal_backend.Errors.{ErrCode, Error, not_found, conflict, backend, panic, plain, coded}
use hexagonal_backend.Errors.Registry.{http_status_for, oauth2_code_for}

-- An error of a use case; coreerror.New with a status; web.NewOAuth2Error; autherrors.HTTPError; and
-- any other error, of which only the message is known.
pub data AppError : Type 0 where
  domain : Error → AppError
  with_status : ErrCode → ℕ → String → AppError
  transport : ℕ → String → String → AppError
  mapped : ErrCode → ℕ → String → AppError
  foreign : String → AppError

-- Error() of a use case's error; the texts of a store's error and of a panic are not the program's.
unfoldable pub text_of : String → Error → String
text_of unknown not_found = "not found"
text_of unknown conflict = "conflict"
text_of unknown backend = unknown
text_of unknown panic = unknown
text_of unknown (plain msg) = msg
text_of unknown (coded c cause) = text_of unknown cause

abbrev pub message : String → AppError → String
message unknown (domain e) = text_of unknown e
message unknown (with_status c status msg) = msg
message unknown (transport status name msg) = msg
message unknown (mapped c status msg) = msg
message unknown (foreign msg) = msg

abbrev pub unauthorized : ErrCode
unauthorized = 40001

abbrev pub bad_request : ErrCode
bad_request = 40003

-- Code(), of the errors that implement coreerror.Error.
unfoldable pub code_of : AppError → Option ErrCode
code_of (domain (coded c cause)) = some c
code_of (domain e) = none
code_of (with_status c status msg) = some c
code_of (transport status name msg) = some (if status == 401 then unauthorized else bad_request)
code_of (mapped c status msg) = some c
code_of (foreign msg) = none

-- HTTPStatus(), where there is one and it is not zero.
unfoldable pub status_of : AppError → Option ℕ
status_of (domain e) = none
status_of (with_status c status msg) = if status == 0 then none else some status
status_of (transport status name msg) = if status == 0 then none else some status
status_of (mapped c status msg) = if status == 0 then none else some status
status_of (foreign msg) = none

-- OAuth2Code() and OAuth2Description(), of the errors that implement web.OAuth2Error.
unfoldable pub oauth2_of : AppError → Option (String × String)
oauth2_of (domain e) = none
oauth2_of (with_status c status msg) = none
oauth2_of (transport status name msg) = some (name, msg)
oauth2_of (mapped c status msg) = some (oauth2_code_for c, msg)
oauth2_of (foreign msg) = none

-- MapHTTPError
unfoldable pub map_http_error : String → AppError → AppError
unfolding code_of status_of
map_http_error unknown e = elim (code_of e) [
  | none ↦ e
  | some c ↦ elim (status_of e) [
    | some status ↦ mapped c status (message unknown e)
    | none ↦ mapped c (http_status_for c) (message unknown e)
  ]
]
