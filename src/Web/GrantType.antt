-- ===== src/Web/GrantType.antt =====
-- handler/web/middleware/grant_type.go
use hexagonal_backend.Common.{
  String, Bool, false, Option, none, some, List, ◌&&◌, not, contains, is_nil, if◌then◌else◌,
}
use hexagonal_backend.Common.Text.{str_eq, is_empty}
use hexagonal_backend.Web.{Context, Request, set_key, abort, text, flag}
use hexagonal_backend.Web.AppError.{transport}
use hexagonal_backend.Web.Handler.{Handler}
use hexagonal_backend.Web.Responder.{fail}

abbrev pub grant_type_key : String
grant_type_key = "grant_type"

-- jsonGrantType, with the field that the JSON decoder finds in a body
unfoldable pub json_grant_type : (String → Option String) → Request → String
json_grant_type decode req = elim req.media_type [
  | none ↦ ""
  | some media ↦ if not (str_eq media "application/json") then "" else elim req.json_body [
    | none ↦ ""
    | some body ↦ elim (decode body) [ none ↦ "" | some found ↦ found ]
  ]
]

-- grantType
unfoldable pub grant_type_of : (String → Option String) → Request → String
unfolding json_grant_type
grant_type_of decode req =
    let posted = req.post_form grant_type_key in
    if not (is_empty posted) then posted else json_grant_type decode req

-- GrantType
unfoldable pub grant_type : (String → Option String) → String → List String → Handler
unfolding grant_type_of contains fail
grant_type decode unknown allowed c =
    let gt = grant_type_of decode c.request in
    if is_empty gt
    then abort (fail unknown (transport 400 "invalid_request" "grant_type is required") false c)
    else if not (is_nil allowed) && not (contains allowed gt)
    then abort
        (fail unknown (transport 400 "unsupported_grant_type" "unsupported grant_type") false c)
    else set_key grant_type_key (text gt) c

-- grantTypeIs of modules/auth/adapter/in/router.go
unfoldable pub grant_type_is : String → Context → Bool
grant_type_is gt c = elim (c.keys grant_type_key) [
  | none ↦ false
  | some (flag b) ↦ false
  | some (text t) ↦ str_eq t gt
]
