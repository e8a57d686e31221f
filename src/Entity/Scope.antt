-- ===== src/Entity/Scope.antt =====
-- modules/auth/domain/entity/scope.go, with strings.Fields and strings.Join.
pub mod Words
use Prim.Native.Char.{Char, code}
use Prim.Native.String.{◌++◌}
use hexagonal_backend.Common.{
  String, Bool, ◌||◌, ◌&&◌, List, [], ◌∷◌, ◌==◌, leb, if◌then◌else◌, contains, is_nil,
}
use hexagonal_backend.Common.Text.{is_empty, is_space}
use hexagonal_backend.Common.Result.{Result, ok, err}
use hexagonal_backend.Errors.{plain}

flush : String → List String → List String
flush word rest = if is_empty word then rest else word ∷ rest

fields_from : String → String → List String
unfolding is_space flush
fields_from word String.[] = flush word []
fields_from word (String.◌∷◌ c s) =
    let next = fields_from (if is_space c then "" else word ++ String.◌∷◌ c String.[]) s in
    if is_space c then flush word next else next

-- strings.Fields
unfoldable pub fields : String → List String
unfolding fields_from
fields = fields_from ""

-- strings.Join(words, " ")
unfoldable pub join : List String → String
join [] = ""
join (w ∷ []) = w
join (w ∷ v ∷ rest) = w ++ (" " ++ join (v ∷ rest))

abbrev pub scope_openid : String
scope_openid = "openid"

abbrev pub supported_scopes : List String
supported_scopes = scope_openid ∷ "email" ∷ "profile" ∷ "phone" ∷ []

unfoldable pub all_supported : List String → Bool
unfolding contains
all_supported [] = Bool.true
all_supported (s ∷ rest) = contains supported_scopes s && all_supported rest

-- NewScope
unfoldable pub new_scope : List String → Result (List String)
new_scope values =
    if is_nil values
    then err (plain "scope must not be empty")
    else if all_supported values
    then ok values
    else err (plain "unsupported scope")
