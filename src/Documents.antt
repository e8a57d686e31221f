-- ===== src/Documents.antt =====
-- modules/auth/adapter/out: the documents that the repositories store (user_doc.go, grant_doc.go and
-- the start of file_refresh_token_repository.go), and the file repositories of grants and refresh
-- tokens as instances of FileRepository.
pub mod Cipher
pub mod RoundTrip
use hexagonal_backend.Common.{
  ℕ, String, Bool, Option, none, some, List, [], ◌∷◌, if◌then◌else◌, ◌||◌, ◌&&◌, not, contains,
  is_some, false, true,
}
use hexagonal_backend.Common.Text.{str_eq, is_empty}
use hexagonal_backend.Common.Time.{Time, before}
use hexagonal_backend.Common.Result.{Result, ok, err, ◌>>=◌, ◌>>◌, fail_if}
use hexagonal_backend.Entity.Client.{default_tenant_id}
use hexagonal_backend.Entity.Scope.{fields, join, new_scope}
use hexagonal_backend.Entity.Types.{User, Grant, RefreshToken}
use hexagonal_backend.Errors.{Error, panic, not_found}
use hexagonal_backend.FileRepo.{
  Model, FileRepository, save, find_by_field, update_by_field, update_all,
}
use hexagonal_backend.FileRepo.Field.{FieldKind}
use hexagonal_backend.FileRepo.WriteFile.{Attempt}
use Cipher.{Library, encrypt, decrypt, blind_index}

pub record UserDoc : Type 0 where
  pub id : String
  pub tenant_id : String
  pub username : String
  pub nickname : String
  pub password : String
  pub email_ciphertext : String
  pub email_blind_index : String
  pub email_verified : Bool
  pub password_reset_token_hash : Option String
  pub password_reset_expires_at : Option Time
  pub sessions_invalidated_at : Option Time
  pub failed_login_attempts : ℕ
  pub locked_until : Option Time
  pub created_at : Time
  pub updated_at : Time

module _ {Byte : Type 0} (lib : Library Byte) (c : Cipher.Cipher Byte) where
  -- userCodec.toDoc, at the n-th read of the random source; it panics where the email cannot be
  -- encrypted.
  unfoldable pub user_to_doc : ℕ → User → Result UserDoc
  user_to_doc n u = elim (encrypt lib c n u.email) [
    | err e ↦ err panic
    | ok ciphertext ↦ ok (record {
      id = u.id;
      tenant_id = u.tenant_id;
      username = u.username;
      nickname = u.nickname;
      password = u.password;
      email_ciphertext = ciphertext;
      email_blind_index = blind_index lib c u.email;
      email_verified = u.email_verified;
      password_reset_token_hash = u.password_reset_token_hash;
      password_reset_expires_at = u.password_reset_expires_at;
      sessions_invalidated_at = u.sessions_invalidated_at;
      failed_login_attempts = u.failed_login_attempts;
      locked_until = u.locked_until;
      created_at = u.created_at;
      updated_at = u.updated_at;
    })
  ]

  -- userCodec.toEntity
  unfoldable pub user_to_entity : UserDoc → Result User
  user_to_entity d = do
    email ← decrypt lib c d.email_ciphertext
    ok (record {
      id = d.id;
      tenant_id = if is_empty d.tenant_id then default_tenant_id else d.tenant_id;
      username = d.username;
      nickname = d.nickname;
      password = d.password;
      email = email;
      email_verified = d.email_verified;
      password_reset_token_hash = d.password_reset_token_hash;
      password_reset_expires_at = d.password_reset_expires_at;
      sessions_invalidated_at = d.sessions_invalidated_at;
      failed_login_attempts = d.failed_login_attempts;
      locked_until = d.locked_until;
      created_at = d.created_at;
      updated_at = d.updated_at;
    })

pub record GrantDoc : Type 0 where
  pub id : String
  pub user_id : String
  pub client_id : String
  pub device_id : String
  pub authenticated_at : Time
  pub created_at : Time
  pub expires_at : Time
  pub revoked_at : Option Time

-- grantToDoc
unfoldable pub grant_to_doc : Grant → GrantDoc
grant_to_doc g = record {
  id = g.id;
  user_id = g.user_id;
  client_id = g.client_id;
  device_id = g.device_id;
  authenticated_at = g.authenticated_at;
  created_at = g.created_at;
  expires_at = g.expires_at;
  revoked_at = g.revoked_at;
}

-- grantToEntity
unfoldable pub grant_to_entity : GrantDoc → Result Grant
grant_to_entity d = ok (record {
  id = d.id;
  user_id = d.user_id;
  client_id = d.client_id;
  device_id = d.device_id;
  authenticated_at = d.authenticated_at;
  created_at = d.created_at;
  expires_at = d.expires_at;
  revoked_at = d.revoked_at;
})

pub record RefreshTokenDoc : Type 0 where
  pub id : String
  pub user_id : String
  pub client_id : String
  pub grant_id : String
  pub token_hash : String
  pub scope : String
  pub device_id : String
  pub authenticated_at : Time
  pub created_at : Time
  pub expires_at : Time
  pub revoked_at : Option Time

-- rtToDoc
unfoldable pub rt_to_doc : RefreshToken → RefreshTokenDoc
rt_to_doc rt = record {
  id = rt.id;
  user_id = rt.user_id;
  client_id = rt.client_id;
  grant_id = rt.grant_id;
  token_hash = rt.token_hash;
  scope = join rt.scope;
  device_id = rt.device_id;
  authenticated_at = rt.authenticated_at;
  created_at = rt.created_at;
  expires_at = rt.expires_at;
  revoked_at = rt.revoked_at;
}

-- rtToEntity
unfoldable pub rt_to_entity : RefreshTokenDoc → Result RefreshToken
rt_to_entity d = do
  scope ← new_scope (fields d.scope)
  ok (record {
    id = d.id;
    user_id = d.user_id;
    client_id = d.client_id;
    grant_id = d.grant_id;
    token_hash = d.token_hash;
    scope = scope;
    device_id = d.device_id;
    authenticated_at = d.authenticated_at;
    created_at = d.created_at;
    expires_at = d.expires_at;
    revoked_at = d.revoked_at;
  })

abbrev time_pointer : Option Time → FieldKind
time_pointer none = FieldKind.nil_pointer
time_pointer (some t) = FieldKind.pointer_to_other

-- What reflection finds in the fields of entity.Grant.
unfoldable pub reflect_grant : String → Grant → FieldKind
reflect_grant field g =
    if str_eq field "ID"
    then FieldKind.text g.id
    else if str_eq field "UserID"
    then FieldKind.text g.user_id
    else if str_eq field "ClientID"
    then FieldKind.text g.client_id
    else if str_eq field "DeviceID"
    then FieldKind.text g.device_id
    else if str_eq field "RevokedAt"
    then time_pointer g.revoked_at
    else if contains ("AuthenticatedAt" ∷ "CreatedAt" ∷ "ExpiresAt" ∷ []) field
    then FieldKind.other
    else FieldKind.missing

-- What reflection finds in the fields of entity.RefreshToken.
unfoldable pub reflect_refresh_token : String → RefreshToken → FieldKind
reflect_refresh_token field rt =
    if str_eq field "TokenHash"
    then FieldKind.text rt.token_hash
    else if str_eq field "ID"
    then FieldKind.text rt.id
    else if str_eq field "UserID"
    then FieldKind.text rt.user_id
    else if str_eq field "ClientID"
    then FieldKind.text rt.client_id
    else if str_eq field "GrantID"
    then FieldKind.text rt.grant_id
    else if str_eq field "DeviceID"
    then FieldKind.text rt.device_id
    else if str_eq field "RevokedAt"
    then time_pointer rt.revoked_at
    else if contains ("Scope" ∷ "AuthenticatedAt" ∷ "CreatedAt" ∷ "ExpiresAt" ∷ []) field
    then FieldKind.other
    else FieldKind.missing

-- NewFileGrantRepository: what it gives to New, with a JSON codec.
abbrev pub grant_model :
    (List (String × GrantDoc) → Option String)
    → (String → Option (List (String × GrantDoc)))
    → Model Grant GrantDoc
grant_model encode decode = record {
  get_id = λ g. g.id;
  to_doc = grant_to_doc;
  to_entity = grant_to_entity;
  reflect = reflect_grant;
  encode = encode;
  decode = decode;
}

-- NewFileRefreshTokenRepository
abbrev pub refresh_token_model :
    (List (String × RefreshTokenDoc) → Option String)
    → (String → Option (List (String × RefreshTokenDoc)))
    → Model RefreshToken RefreshTokenDoc
refresh_token_model encode decode = record {
  get_id = λ rt. rt.id;
  to_doc = rt_to_doc;
  to_entity = rt_to_entity;
  reflect = reflect_refresh_token;
  encode = encode;
  decode = decode;
}

-- The update of FileGrantRepository.Revoke.
unfoldable pub revoke_grant : Time → Grant → Result Grant
revoke_grant at g = do
  fail_if (is_some g.revoked_at) not_found
  ok (record g { revoked_at = some at })
