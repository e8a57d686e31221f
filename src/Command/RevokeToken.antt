-- ===== src/Command/RevokeToken.antt =====
-- modules/auth/application/command/revoke_token.go (RFC 7009).
pub mod Owner
use hexagonal_backend.Common.{
  ◌+◌, String, Bool, true, false, not, ◌&&◌, ◌||◌, Option, none, some, is_some, if◌then◌else◌,
}
use hexagonal_backend.Common.Text.{is_empty, str_eq}
use hexagonal_backend.Common.Time.{Time}
use hexagonal_backend.Common.Result.{Result, ok, err, is_ok}
use hexagonal_backend.Entity.Token.{hash}
use hexagonal_backend.Entity.Token
use hexagonal_backend.Entity.Types.{RefreshToken}
use hexagonal_backend.Env.{Claims}
use hexagonal_backend.Errors.{Error, is_not_found, err_invalid_client}
use hexagonal_backend.Service.Authenticator.{authenticate, ClientCredentials}
use hexagonal_backend.Service.Jwt.{parse_jwt}
use hexagonal_backend.Service.Jwt
use hexagonal_backend.Service.Revocation.{blacklist_jti, mark_grant_revoked}
use hexagonal_backend.World.Monad.{
  when◌then◌else◌, M, pure, raise, raise_if, asks, attempt, modify, ◌>>=◌, ◌>>◌, now,
}
use hexagonal_backend.World.Stores.{
  find_token_by_hash, revoke_token_by_hash, revoke_all_for_grant, revoke_grant_row,
}

pub record Command : Type 0 where
  pub caller_id : String
  pub client_id : String
  pub client_secret : String
  pub basic_client_id : String
  pub basic_client_secret : String
  pub token : String
  pub token_type_hint : Option String

abbrev pub credentials : Command → ClientCredentials
credentials c = record {
  client_id = c.client_id;
  form_secret = c.client_secret;
  basic_client_id = c.basic_client_id;
  basic_secret = c.basic_client_secret;
}

-- revocationsCounter.Add(1)
count_revocation : M (Unit {0})
count_revocation = modify λ w. record w { revocations = w.revocations + 1 }

-- `if err != nil && !errors.Is(err, ErrNotFound) { return err }`
abbrev pub unless_not_found : M (Unit {0}) → M (Unit {0})
unless_not_found m = do
  r ← attempt m
  elim r [ ok _ ↦ pure tt | err e ↦ when is_not_found e then pure tt else raise e ]

-- The cascade: the grant, then its tokens, then the marker.
unfoldable pub cascade : String → M (Unit {0})
cascade grant_id = when is_empty grant_id then pure tt else (do
  t ← now
  unless_not_found (revoke_grant_row grant_id t)
  revoke_all_for_grant grant_id
  mark_grant_revoked grant_id)

finish : RefreshToken → M (Unit {0})
unfolding count_revocation
finish rt = do cascade rt.grant_id; count_revocation

-- `rt.RevokedAt == nil && !rt.IsValid()`
is_spent : RefreshToken → M Bool
is_spent rt = do valid ← Token.is_valid rt; pure (not (is_some rt.revoked_at) && not valid)

-- revokeConfirmedRefreshToken
unfoldable pub revoke_confirmed_refresh_token : RefreshToken → M (Unit {0})
unfolding finish is_spent
revoke_confirmed_refresh_token rt = do
  r ← attempt (revoke_token_by_hash rt.token_hash)
  elim r [
    | ok _ ↦ finish rt
    | err e ↦
        when not (is_not_found e)
        then raise e
        else (do spent ← is_spent rt; when spent then pure tt else finish rt)
  ]

blacklist_claims : Claims → String → M Bool
unfolding count_revocation
blacklist_claims claims caller_id =
    when is_empty claims.id
    then pure false
    else when not (is_empty caller_id) && not (str_eq claims.subject caller_id)
    then pure false
    else (do
      expired ← Jwt.is_expired claims
      elim claims.expires_at [
        | none ↦ pure false
        | some expires ↦
            when expired
            then pure false
            else (do blacklist_jti claims.id expires; count_revocation; pure true)
      ])

-- blacklistAccessToken. A token with no expiry counts as expired.
unfoldable pub blacklist_access_token : String → String → M Bool
unfolding blacklist_claims
blacklist_access_token token caller_id = do
  parsed ← asks (λ env. parse_jwt env token)
  elim parsed [ err _ ↦ pure false | ok claims ↦ blacklist_claims claims caller_id ]

-- `c.CallerID != "" && rt.UserID != c.CallerID`: another owner's token is treated as unknown.
revoke_owned : String → RefreshToken → M (Unit {0})
revoke_owned caller_id rt =
    when not (is_empty caller_id) && not (str_eq rt.user_id caller_id)
    then pure tt
    else revoke_confirmed_refresh_token rt

abbrev pub is_access_hint : Option String → Bool
is_access_hint none = false
is_access_hint (some hint) = str_eq hint "access_token"

-- The access-token path first.
access_first : Command → M (Unit {0})
unfolding revoke_owned
access_first c = do
  revoked ← blacklist_access_token c.token c.caller_id
  when revoked then pure tt else (do
    hashed ← hash c.token
    found ← attempt (find_token_by_hash hashed)
    elim found [
      | ok rt ↦ revoke_owned c.caller_id rt
      | err e ↦ when is_not_found e then pure tt else raise e
    ])

-- The refresh-token path first.
refresh_first : Command → M (Unit {0})
unfolding revoke_owned
refresh_first c = do
  hashed ← hash c.token
  found ← attempt (find_token_by_hash hashed)
  elim found [
    | ok rt ↦ revoke_owned c.caller_id rt
    | err e ↦ do
      revoked ← blacklist_access_token c.token c.caller_id
      raise_if (not (is_not_found e) && not revoked) e
  ]

-- A caller without a bearer token authenticates as a client.
unfoldable pub authorize_caller : Command → M (Unit {0})
authorize_caller c =
    when not (is_empty c.caller_id)
    then pure tt
    else when is_empty c.client_id && is_empty c.basic_client_id
    then raise err_invalid_client
    else (do
      allowed ← asks (λ env. is_ok (authenticate env (credentials c)))
      raise_if (not allowed) err_invalid_client)

-- Execute
unfoldable pub execute : Command → M (Unit {0})
unfolding access_first refresh_first
execute c = do
  authorize_caller c
  when is_access_hint c.token_type_hint then access_first c else refresh_first c
