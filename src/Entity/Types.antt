-- ===== src/Entity/Types.antt =====
-- The records of modules/auth/domain/entity. Ids and scopes are as in Go: strings, and a list of
-- strings.
use hexagonal_backend.Common.{ℕ, String, Bool, List, Option}
use hexagonal_backend.Common.Time.{Time}

abbrev pub Scope : Type 0
Scope = List String

-- ClientAuthMethod is a string: a method outside the three known ones is `other`.
pub data ClientAuthMethod : Type 0 where
  none_method secret_basic secret_post : ClientAuthMethod
  other_method : String → ClientAuthMethod

pub record Client : Type 0 where
  pub id : String
  pub tenant_id : String
  pub auth_method : ClientAuthMethod
  pub secret_hash : Option String
  pub redirect_uris : List String
  pub allowed_grants : List String

pub record ClientArgs : Type 0 where
  pub id : String
  pub tenant_id : String
  pub auth_method : ClientAuthMethod
  pub secret : String
  pub redirect_uris : List String
  pub allowed_grants : List String

pub record User : Type 0 where
  pub created_at : Time
  pub updated_at : Time
  pub id : String
  pub tenant_id : String
  pub username : String
  pub nickname : String
  pub password : String
  pub email : String
  pub email_verified : Bool
  pub password_reset_token_hash : Option String
  pub password_reset_expires_at : Option Time
  pub sessions_invalidated_at : Option Time
  pub failed_login_attempts : ℕ
  pub locked_until : Option Time

pub record UserArgs : Type 0 where
  pub tenant_id : String
  pub username : String
  pub nickname : String
  pub password : String
  pub email : String
  pub email_verified : Bool

pub record UpdateProfileArgs : Type 0 where
  pub username : Option String
  pub nickname : Option String
  pub email : Option String

pub record AuthorizeRequest : Type 0 where
  pub id : String
  pub created_at : Time
  pub csrf_token : String
  pub client_id : String
  pub redirect_uri : String
  pub scope : Scope
  pub state : Option String
  pub nonce : Option String
  pub code_challenge : Option String
  pub code_challenge_method : Option String
  pub failed_attempts : ℕ

pub record AuthorizeRequestArgs : Type 0 where
  pub client_id : String
  pub redirect_uri : String
  pub scope : String
  pub state : Option String
  pub nonce : Option String
  pub code_challenge : Option String
  pub code_challenge_method : Option String

pub record AuthCode : Type 0 where
  pub code : String
  pub user_id : String
  pub client_id : Option String
  pub redirect_uri : String
  pub scope : Scope
  pub nonce : Option String
  pub code_challenge : Option String
  pub code_challenge_method : Option String
  pub expires_at : Time

pub record AuthCodeArgs : Type 0 where
  pub user_id : String
  pub client_id : String
  pub redirect_uri : String
  pub scope : Scope
  pub nonce : Option String
  pub code_challenge : Option String
  pub code_challenge_method : Option String

pub record Grant : Type 0 where
  pub id : String
  pub user_id : String
  pub client_id : String
  pub device_id : String
  pub authenticated_at : Time
  pub created_at : Time
  pub expires_at : Time
  pub revoked_at : Option Time

pub record IssuedTokens : Type 0 where
  pub access_token : String
  pub refresh_token : String
  pub id_token : String
  pub scope : Scope
  pub grant_id : String
  pub new_grant : Option Grant

pub record RefreshToken : Type 0 where
  pub id : String
  pub user_id : String
  pub client_id : String
  pub grant_id : String
  pub token_hash : String
  pub scope : Scope
  pub device_id : String
  pub authenticated_at : Time
  pub created_at : Time
  pub expires_at : Time
  pub revoked_at : Option Time
