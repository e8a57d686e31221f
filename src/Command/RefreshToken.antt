-- ===== src/Command/RefreshToken.antt =====
-- modules/auth/application/command/refresh_token.go: rotation and replay detection.
pub mod Failure
pub mod Replay
pub mod Extension
pub mod Rotation
use hexagonal_backend.Common.{
  ℕ, String, Bool, true, false, not, Option, none, some, is_some, if◌then◌else◌,
}
use hexagonal_backend.Common.Int.{ℤ}
use hexagonal_backend.Common.Text.{is_empty}
use hexagonal_backend.Common.Time.{Time, after}
use hexagonal_backend.Common.Result.{Result, ok, err}
use hexagonal_backend.Command.ExchangeCode.{save_new_grant}
use hexagonal_backend.Define.Expiry.{resolve_expiry_secs}
use hexagonal_backend.Define.Response.{TokenResponse, token_response}
use hexagonal_backend.Entity.Client.{allows_grant, grant_refresh_token}
use hexagonal_backend.Entity.Grant.{extend_to_cover}
use hexagonal_backend.Entity.Grant
use hexagonal_backend.Entity.Token.{hash, rotate, issued_to}
use hexagonal_backend.Entity.Token
use hexagonal_backend.Entity.Types.{User, Client, RefreshToken, IssuedTokens}
use hexagonal_backend.Errors.{
  Error, is_not_found, is_error_struct, err_invalid_client, err_invalid_refresh_token,
  err_gen_refresh_token_failed,
}
use hexagonal_backend.Service.Authenticator.{authenticate, ClientCredentials}
use hexagonal_backend.Service.Issuance.{issue_tokens}
use hexagonal_backend.Service.Revocation.{mark_grant_revoked}
use hexagonal_backend.World.Monad.{
  when◌then◌else◌, M, pure, raise, raise_if, asks, attempt, best_effort, ◌>>=◌, ◌>>◌, now,
}
use hexagonal_backend.World.Stores.{
  find_token_by_hash, revoke_token_by_hash, revoke_all_for_grant, revoke_all_for_user, save_token,
  find_grant, save_grant, revoke_grant_row, find_user_by_id, do_in_transaction,
}

pub record Command : Type 0 where
  pub grant_type : String
  pub client_id : String
  pub client_secret : String
  pub basic_client_id : String
  pub basic_client_secret : String
  pub refresh_token : String
  pub expire_secs : Option ℤ

abbrev pub credentials : Command → ClientCredentials
credentials c = record {
  client_id = c.client_id;
  form_secret = c.client_secret;
  basic_client_id = c.basic_client_id;
  basic_secret = c.basic_client_secret;
}

-- writeRevokedGrantMarker
write_revoked_grant_marker : String → M (Unit {0})
write_revoked_grant_marker grant_id = do
  cached ← asks (λ env. env.has_cache)
  when cached then best_effort (mark_grant_revoked grant_id) else pure tt

-- revokeGrant
revoke_grant : String → M (Unit {0})
revoke_grant grant_id = do t ← now; best_effort (revoke_grant_row grant_id t)

-- What findActiveRefreshToken does about a revoked token that is presented again.
unfoldable pub revoke_family : RefreshToken → M (Unit {0})
unfolding revoke_grant write_revoked_grant_marker
revoke_family rt =
    when is_empty rt.grant_id then best_effort (revoke_all_for_user rt.user_id) else (do
      revoke_grant rt.grant_id
      best_effort (revoke_all_for_grant rt.grant_id)
      write_revoked_grant_marker rt.grant_id)

check_active : RefreshToken → M RefreshToken
check_active rt = elim rt.revoked_at [
  | some _ ↦ revoke_family rt >> raise err_invalid_refresh_token
  | none ↦ do valid ← Token.is_valid rt; raise_if (not valid) err_invalid_refresh_token; pure rt
]

-- findActiveRefreshToken
unfoldable pub find_active_refresh_token : String → M RefreshToken
unfolding check_active
find_active_refresh_token raw = do
  hashed ← hash raw
  found ← attempt (find_token_by_hash hashed)
  elim found [ err e ↦ raise err_invalid_refresh_token | ok rt ↦ check_active rt ]

-- `if err != nil { return NewErrGenRefreshTokenFailed(err) }`
abbrev pub or_gen_failed : M (Unit {0}) → M (Unit {0})
or_gen_failed m = do
  r ← attempt m
  elim r [ ok _ ↦ pure tt | err e ↦ raise (err_gen_refresh_token_failed e) ]

-- checkAndExtendGrant
unfoldable pub check_and_extend_grant : String → Time → M (Unit {0})
check_and_extend_grant grant_id token_expiry = when is_empty grant_id then pure tt else (do
  found ← attempt (find_grant grant_id)
  elim found [
    | err e ↦ when is_not_found e then pure tt else raise (err_gen_refresh_token_failed e)
    | ok g ↦ do
      valid ← Grant.is_valid g
      raise_if (not valid) err_invalid_refresh_token
      or_gen_failed (save_grant (extend_to_cover g token_expiry))
  ])

-- The function that updateRefreshToken runs in the transaction.
unfoldable pub rotate_rows : RefreshToken → RefreshToken → M (Unit {0})
rotate_rows old new = do
  check_and_extend_grant old.grant_id new.expires_at
  revoked ← attempt (revoke_token_by_hash old.token_hash)
  elim revoked [
    | ok _ ↦ or_gen_failed (save_token new)
    | err e ↦
        raise (if is_not_found e then err_invalid_refresh_token else err_gen_refresh_token_failed e)
  ]

-- updateRefreshToken
unfoldable pub update_refresh_token : RefreshToken → RefreshToken → M (Unit {0})
unfolding rotate_rows
update_refresh_token old new = do
  r ← attempt (do_in_transaction (rotate_rows old new))
  elim r [
    | ok _ ↦ pure tt
    | err e ↦ raise (if is_error_struct e then e else err_gen_refresh_token_failed e)
  ]

-- `user.SessionsInvalidatedAt != nil && !rt.AuthenticatedAt.After(*user.SessionsInvalidatedAt)`
abbrev pub is_invalidated : User → RefreshToken → Bool
is_invalidated user rt = elim user.sessions_invalidated_at [
  | none ↦ false
  | some t ↦ not (after rt.authenticated_at t)
]

unfoldable pub rotate_for : Command → Client → RefreshToken → User → M TokenResponse
rotate_for c client rt user = do
  raise_if (is_invalidated user rt) err_invalid_refresh_token
  let expire_secs = resolve_expiry_secs c.expire_secs
  tokens ← issue_tokens (record {
    user = user;
    client_id = client.id;
    nonce = "";
    scope = rt.scope;
    expire_secs = expire_secs;
    existing_grant_id = rt.grant_id;
  })
  new ← rotate rt user.id tokens
  or_gen_failed (save_new_grant tokens.new_grant new.expires_at)
  update_refresh_token rt new
  pure (token_response tokens expire_secs)

unfoldable pub for_client : Command → Client → M TokenResponse
unfolding rotate_for
for_client c client = do
  raise_if (not (allows_grant client grant_refresh_token)) err_invalid_client
  rt ← find_active_refresh_token c.refresh_token
  raise_if (not (issued_to rt client.id)) err_invalid_refresh_token
  found ← attempt (find_user_by_id rt.user_id)
  elim found [ err e ↦ raise err_invalid_refresh_token | ok user ↦ rotate_for c client rt user ]

-- Execute
unfoldable pub execute : Command → M TokenResponse
unfolding for_client
execute c = do
  who ← asks (λ env. authenticate env (credentials c))
  elim who [ err e ↦ raise err_invalid_client | ok client ↦ for_client c client ]
