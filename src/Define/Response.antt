-- ===== src/Define/Response.antt =====
-- modules/auth/application/define/response.go: the answers of the use cases.
use hexagonal_backend.Common.{ℕ, String, Bool, List, Option}
use hexagonal_backend.Common.Time.{Time}
use hexagonal_backend.Entity.AuthRequest.{with_state}
use hexagonal_backend.Entity.Scope.{join}
use hexagonal_backend.Entity.Types.{User, IssuedTokens}
use hexagonal_backend.Env.{Env}

pub record CreateUserResponse : Type 0 where
  pub username : String
  pub nickname : String
  pub email : String

-- CreateUserResponse.FromEntity
abbrev pub created_user : User → CreateUserResponse
created_user u = record { username = u.username; nickname = u.nickname; email = u.email }

pub record TokenResponse : Type 0 where
  pub scope : String
  pub token_type : String
  pub access_token : String
  pub id_token : String
  pub refresh_token : String
  pub expires_in : ℕ

-- TokenResponse.FromEntity
abbrev pub token_response : IssuedTokens → ℕ → TokenResponse
token_response tokens expire_secs = record {
  scope = join tokens.scope;
  token_type = "Bearer";
  access_token = tokens.access_token;
  id_token = tokens.id_token;
  refresh_token = tokens.refresh_token;
  expires_in = expire_secs;
}

-- AuthorizeErrorRedirect and GetAuthorizeResponse, the two answers of the authorize query.
pub data AuthorizeAnswer : Type 0 where
  error_redirect : String → String → Option String → AuthorizeAnswer
  session_started : String → AuthorizeAnswer

-- The URL methods of the two; `Env.with_query` leaves a URL that does not parse as it is.
abbrev pub authorize_url : Env → AuthorizeAnswer → String
authorize_url env (error_redirect uri err_code state) =
    env.with_query uri (with_state "error" err_code state)
authorize_url env (session_started id) = "/sign-in"

pub record ProfileResponse : Type 0 where
  pub sub : String
  pub preferred_username : String
  pub nickname : String
  pub email : String
  pub email_verified : Bool
  pub updated_at : ℕ

pub record UpdateProfileResponse : Type 0 where
  pub updated_at : Time
  pub user_id : String
  pub email : String
  pub username : String
  pub nickname : String
  pub email_verified : Bool

-- IntrospectResponse; a zero exp or iat is omitted.
pub record ActiveToken : Type 0 where
  pub sub : String
  pub issuer : String
  pub audience : List String
  pub scope : String
  pub expires_at : ℕ
  pub issued_at : ℕ
  pub jwt_id : String
  pub token_type : String

pub data IntrospectResponse : Type 0 where
  inactive : IntrospectResponse
  active : ActiveToken → IntrospectResponse
